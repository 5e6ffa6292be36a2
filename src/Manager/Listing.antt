-- ===== src/Manager/Listing.antt =====
-- `loadStationsList` after its `await`, for an answer that holds a list of stations.
use ocpp_server.Base.{
  suc, String, ◌≡◌, refl, sym, ap, ◌∙◌, Bool, true, false, List, [], ◌∷◌, ◌++◌, map, arith, ltb,
  if◌then◌else◌, ◌<>◌, All,
}
use ocpp_server.Js.{
  Value, undefined, null, str, arr, obj, Elements, cons, items, length_items, truthy, is_nullish,
  returned, lift, ◌>>=◌, ◌>>◌, modify, Host, prop, text_of, read,
}
use mathlib.Core.List.{append-nil, append_assoc}
use ocpp_server.Rpc.State.{resolved, nat_key, string_key}
use ocpp_server.Central.State.{Choice}
use ocpp_server.Central.Selection.{parse_response}
use ocpp_server.Manager.State.{ManagerPage, ManagerWorld, with_ui}
use ocpp_server.Manager.View.{station_option, append_station_options, update_stations_dropdown}
use ocpp_server.Manager.Selection.{
  cache_stations, cache_station_list, request_station, choose_first, list_loaded,
}

-- A value that has fields to read.
abbrev pub IsPresent : Value → Type 0
IsPresent v = is_nullish v ≡ false

module _ (host : Host) where
  pub IsPresent-prop :
      (v : Value) (k : String) → IsPresent v → prop host v k ≡ returned (read host v k)
  IsPresent-prop undefined k h = cc
  IsPresent-prop null k h = cc
  IsPresent-prop (str s) k h = refl
  IsPresent-prop (arr vs) k h = refl
  IsPresent-prop (obj fs) k h = refl
  IsPresent-prop _ k h = refl

  -- The entry of a station: its number, and its name if it has one.
  abbrev pub choice_of : Value → Choice
  choice_of station = record {
    value = text_of host (read host station "id");
    text =
        if truthy (read host station "name")
        then text_of host (read host station "name")
        else "Станция " <> text_of host (read host station "id");
  }

  station_option-choice : (v : Value) → IsPresent v → station_option host v ≡ returned (choice_of v)
  station_option-choice undefined h = cc
  station_option-choice null h = cc
  station_option-choice (str s) h = refl
  station_option-choice (arr vs) h = refl
  station_option-choice (obj fs) h = refl
  station_option-choice _ h = refl

  append_station_options-map :
      (vs : List Value) (p : ManagerPage)
      → All IsPresent vs
      → append_station_options host vs p ≡ (
        returned tt,
        with_ui (λ u. record u { station_options = u.station_options ++ map choice_of vs }) p,
      )
  unfolding append_station_options
  append_station_options-map [] p h =
      ap (λ cs. (returned tt, with_ui (λ u. record u { station_options = cs }) p))
        (sym (append-nil p.ui.station_options))
  append_station_options-map (v ∷ vs) p (h, hs) =
      ap
        (λ r.
          (lift r >>= (λ choice.
              modify
                (with_ui (λ u. record u { station_options = u.station_options ++ choice ∷ [] }))
              >> append_station_options host vs))
            p)
        (station_option-choice v h)
      ∙ append_station_options-map vs
          (with_ui (λ u. record u { station_options = u.station_options ++ choice_of v ∷ [] }) p) hs
      ∙ ap (λ cs. (returned tt, with_ui (λ u. record u { station_options = cs }) p))
          (append_assoc p.ui.station_options (choice_of v ∷ []) (map choice_of vs))

  cache_stations-returned :
      (vs : List Value) (p : ManagerPage)
      → All IsPresent vs
      → (m : List (Value × Value)) × (cache_stations host vs p
          ≡ (returned tt, record p { stations = m }))
  unfolding cache_stations
  cache_stations-returned [] p h = (p.stations, refl)
  cache_stations-returned (v ∷ vs) p (h, hs) =
      rw (IsPresent-prop v "id" h) (cache_stations-returned vs _ hs)

  abbrev pub listed_page : List Value → List (Value × Value) → ManagerPage → ManagerPage
  listed_page vs m p = record p {
    stations = m;
    ui = record (p.ui) { station_options = map choice_of vs };
  }

  pub list_loaded-arr :
      (sends : Bool) (msg s : Value) (vs : Elements) (w : ManagerWorld)
      → parse_response host msg ≡ arr (cons s vs)
      → All IsPresent (s ∷ items vs)
      → truthy w.page.current_station ≡ false
      → (m : List (Value × Value)) × (list_loaded host sends (resolved msg) w ≡ (
        returned tt,
        request_station host sends
            (read host s "id")
            (record w { page = listed_page (s ∷ items vs) m w.page }),
      ))
  unfolding list_loaded update_stations_dropdown cache_station_list choose_first
  list_loaded-arr sends msg s vs w holds present nothing =
      let emptied = record w.page { ui = record (w.page.ui) { station_options = [] } } in
      let (m, cached) =
        cache_stations-returned (s ∷ items vs) (listed_page (s ∷ items vs) [] w.page) present in
      let some_there : ltb 0 (suc (length_items vs)) ≡ true = ground arith in
      (
        m,
        rw
            (
              holds,
              append_station_options-map (s ∷ items vs) emptied present,
              cached,
              nothing,
              IsPresent-prop s "id" present.0,
              some_there,
            )
            refl,
      )
