-- ===== src/Central/Settling.antt =====
-- What goes on when a promise is settled keeps whatever does not read the page.
use ocpp_server.Base.{String, ◌≡◌, List, [], ◌∷◌}
use ocpp_server.Js.{
  Number, Value, modify, Keeps, Keeps-modify, Keeps-done, Keeps-bind, keeps_rules, Host,
}
use ocpp_server.Rpc.State.{Settled, resolved, rejected, nat_key, string_key}
use ocpp_server.Central.State.{
  Page, Await, stations_list, station_change, connector_change, command, World, on_page,
}
use ocpp_server.Central.View.{log_error, update_station_dropdown, update_connector_info}
use ocpp_server.Central.Selection.{
  cache_station, cache_each, cache_stations_data, stations_list_loaded, show_station,
  station_changed, connector_changed,
}
use ocpp_server.Central.Events.{resume}
use ocpp_server.Central.Blind.{
  IsBlind, log_error-Inv, update_station_dropdown-Keeps, show_station-Keeps,
  update_connector_info-Keeps, commanded-Keeps,
}

module _ (Inv : World → Type 0) (blind : IsBlind Inv) where
  on_page-Keeps :
      (f : Page → Page) → ((p : Page) → (f p).ui ≡ p.ui) → Keeps Inv (modify (on_page f))
  on_page-Keeps f same = record { at = λ w i. blind.pages (f w.page) w (same w.page) i }

  failing : (text : String) (w : World) → Inv w → Inv (log_error text w)
  failing = log_error-Inv Inv blind.tolerant

  module _ (host : Host) where
    listing : (v : Value) → Keeps Inv (update_station_dropdown host v)
    listing = update_station_dropdown-Keeps Inv blind.tolerant host

    showing : (v : Value) → Keeps Inv (show_station host v)
    showing = show_station-Keeps Inv blind.tolerant host

    connecting : (v : Value) → Keeps Inv (update_connector_info host v)
    connecting = update_connector_info-Keeps Inv blind.tolerant host

    cache_station-Keeps : (v : Value) → Keeps Inv (cache_station host v)
    unfolding cache_station
    cache_station-Keeps v = search (keeps_rules, on_page-Keeps)

    cache_each-Keeps : (vs : List Value) → Keeps Inv (cache_each host vs)
    unfolding cache_each
    cache_each-Keeps [] = Keeps-done
    cache_each-Keeps (v ∷ vs) = record {
      at =
          (Keeps-bind (cache_station host v) (λ _. cache_each host vs) (cache_station-Keeps v)
            (λ _. cache_each-Keeps vs)).at;
    }

    cache_stations_data-Keeps : (v : Value) → Keeps Inv (cache_stations_data host v)
    unfolding cache_stations_data
    cache_stations_data-Keeps v = search (keeps_rules, on_page-Keeps, cache_each-Keeps)

    stations_list_loaded-Keeps : (r : Settled) → Keeps Inv (stations_list_loaded host r)
    unfolding stations_list_loaded
    stations_list_loaded-Keeps (rejected e) = Keeps-modify _ (failing _)
    stations_list_loaded-Keeps (resolved v) =
        search (keeps_rules, failing, listing, cache_stations_data-Keeps) depth 9

    station_changed-Keeps : (id : String) (r : Settled) → Keeps Inv (station_changed host id r)
    unfolding station_changed
    station_changed-Keeps id (rejected e) = Keeps-modify _ (failing _)
    station_changed-Keeps id (resolved v) =
        search (keeps_rules, on_page-Keeps, failing, showing) depth 9

    connector_changed-Keeps : (n : Number) (r : Settled) → Keeps Inv (connector_changed host n r)
    unfolding connector_changed
    connector_changed-Keeps n (rejected e) = Keeps-modify _ (failing _)
    connector_changed-Keeps n (resolved v) =
        search (keeps_rules, on_page-Keeps, failing, connecting) depth 9

    pub resume-Keeps : (k : Await) (r : Settled) → Keeps Inv (resume host k r)
    unfolding resume
    resume-Keeps stations_list r = stations_list_loaded-Keeps r
    resume-Keeps (station_change id) r = station_changed-Keeps id r
    resume-Keeps (connector_change n) r = connector_changed-Keeps n r
    resume-Keeps (command c) r = commanded-Keeps Inv blind.tolerant host c r
