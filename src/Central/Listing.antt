-- ===== src/Central/Listing.antt =====
-- The list of stations that the server sends, in the page and in the cache.
use ocpp_server.Base.{
  ◌≤◌, ◌≡◌, refl, ap, ◌⊎◌, inl, inr, true, List, [], ◌∷◌, map, arith, length, All,
}
use ocpp_server.Js.{Value, undefined, str, arr, Elements, items, is_string, returned, Host, prop}
use ocpp_server.Rpc.State.{resolved, nat_key, string_key}
use ocpp_server.Central.State.{World, on_page, on_ui}
use ocpp_server.Central.View.{log_error, blank, station_choice, update_station_dropdown}
use ocpp_server.Central.Selection.{
  set_key, parse_response, cache_station, cache_each, cache_stations_data, stations_list_loaded,
}

abbrev pub IsText : Value → Type 0
IsText v = is_string v ≡ true

module _ (host : Host) where
  cache_station-ui : (v : Value) (w : World) → (cache_station host v w).1.page.ui ≡ w.page.ui
  unfolding cache_station
  cache_station-ui v w = ground arith

  cache_each-ui : (vs : List Value) (w : World) → (cache_each host vs w).1.page.ui ≡ w.page.ui
  unfolding cache_each
  cache_each-ui [] w = refl
  cache_each-ui (v ∷ vs) w =
      ground (arith, cache_station-ui v w, cache_each-ui vs (cache_station host v w).1)

  cache_stations_data-ui :
      (v : Value) (w : World) → (cache_stations_data host v w).1.page.ui ≡ w.page.ui
  unfolding cache_stations_data
  cache_stations_data-ui (arr vs) w =
      cache_each-ui (items vs) (on_page (λ p. record p { stations = [] }) w)
  cache_stations_data-ui undefined w = refl
  cache_stations_data-ui _ w = refl

  -- A list of stations fills the choice of stations: an empty entry, then one for each in order.
  stations_list_options :
      (response : Value) (vs : Elements) (w : World)
      → prop host (parse_response host response) "stations" ≡ returned (arr vs)
      → (stations_list_loaded host (resolved response) w).1.page.ui.station_options
        ≡ blank ∷ map (station_choice host) (items vs)
  unfolding stations_list_loaded update_station_dropdown log_error
  stations_list_options response vs w found = rw found (
      ground (
        arith,
        ap (λ u. u.station_options)
            (cache_stations_data-ui (arr vs) (
              on_ui
                (λ u. record u { station_options = blank ∷ map (station_choice host) (items vs) })
                w)),
      ))

  abbrev OneKey : List (Value × Value) → Type 0
  OneKey m = (m ≡ []) ⊎ ((v : Value) × (m ≡ (undefined, v) ∷ []))

  set_key-OneKey :
      (v : Value) (m : List (Value × Value)) → OneKey m → OneKey (set_key undefined v m)
  unfolding set_key
  set_key-OneKey v m (inl e) = rw e (inr (v, refl))
  set_key-OneKey v m (inr (u, e)) = rw e (inr (v, refl))

  cache_each-OneKey :
      (vs : List Value) (w : World)
      → All IsText vs
      → OneKey w.page.stations
      → OneKey (cache_each host vs w).1.page.stations
  unfolding cache_each cache_station
  cache_each-OneKey [] w texts k = k
  cache_each-OneKey (str s ∷ vs) w texts k =
      cache_each-OneKey vs
        (on_page (λ p. record p { stations = set_key undefined (str s) p.stations }) w) texts.1
        (set_key-OneKey (str s) w.page.stations k)
  cache_each-OneKey (undefined ∷ vs) w texts k = cc
  cache_each-OneKey (_ ∷ vs) w texts k = cc

  -- Of a list of texts, however long, the cache keeps one entry at most, since texts have no field `id`.
  cache_stations_data_names :
      (vs : Elements) (w : World)
      → All IsText (items vs)
      → length (cache_stations_data host (arr vs) w).1.page.stations ≤ 1
  unfolding cache_stations_data
  cache_stations_data_names vs w texts = ground (
    arith,
    cache_each-OneKey (items vs) (on_page (λ p. record p { stations = [] }) w) texts (inl refl),
  )

  -- When the answer holds an array of the names of the stations, the choice of stations becomes an empty
  -- entry followed by one entry for each name, in order; but however many there are, the cache of the
  -- page keeps one entry at most.
  pub names_listed :
      (response : Value) (vs : Elements) (w : World)
      → prop host (parse_response host response) "stations" ≡ returned (arr vs)
      → All IsText (items vs)
      → let v = (stations_list_loaded host (resolved response) w).1 in
        (v.page.ui.station_options ≡ blank ∷ map (station_choice host) (items vs))
        × (length v.page.stations ≤ 1)
  unfolding stations_list_loaded update_station_dropdown log_error
  names_listed response vs w found texts = (
    stations_list_options response vs w found,
    rw found (
        ground (
          arith,
          cache_stations_data_names vs
              (on_ui
                (λ u. record u { station_options = blank ∷ map (station_choice host) (items vs) })
                w)
              texts,
        )),
  )
