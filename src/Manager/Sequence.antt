-- ===== src/Manager/Sequence.antt =====
-- `StationManager` from a frame to the next request: the answered list brings the first station, and
-- the answered station its first connector.
use ocpp_server.Base.{ℕ, suc, String, ◌≡◌, refl, Bool, true, false, some, [], ◌∷◌, ◌++◌, map, All}
use ocpp_server.Base.Dict.{Key}
use ocpp_server.Base.Dict
use ocpp_server.Js.{
  Value, arr, obj, Elements, cons, end, field, items, truthy, returned, Host, prop, read,
}
use ocpp_server.Rpc.State.{nat_key, string_key}
use ocpp_server.Rpc.Core.{next_request}
use ocpp_server.Rpc.Frames.{IsAnswer}
use ocpp_server.Central.Selection.{parse_response}
use ocpp_server.Manager.State.{
  ManagerUi, ManagerWorld, stations_list, station_change, connector_change,
}
use ocpp_server.Manager.Events.{socket_message, step_manager}
use ocpp_server.Manager.History.{Run, loaded}
use ocpp_server.Manager.Listing.{IsPresent, choice_of}
use ocpp_server.Manager.Frames.{list_frame, station_frame}
use ocpp_server.Manager.Choosing.{status_after, connector_entry}

module _ (host : Host) (ui : ManagerUi) (opens : Bool) {w : ManagerWorld}
    (r : Run host (loaded host ui) w) (on : w.connected ≡ true) (n : ℕ) (text : String)
    (msg : Value) (answer : IsAnswer host n text msg) where
  -- Whatever happened to the page since it was loaded: when the client is connected, its socket takes
  -- requests, no station is chosen, and the answer with the list of the stations arrives with no error and holds some, none of them
  -- `undefined` or `null`, then the selection offers these and no other in their order, and the status
  -- of the first one is asked for under the next number; the answered request waits no more.
  pub list_answered :
      (s : Value) (vs : Elements)
      → Dict.get n w.pending_requests ≡ some stations_list
      → truthy w.page.current_station ≡ false
      → parse_response host msg ≡ arr (cons s vs)
      → All IsPresent (s ∷ items vs)
      → let id = read host s "id" in
        let v = step_manager host true opens (socket_message text) w in
        (v.page.ui.station_options ≡ map (choice_of host) (s ∷ items vs))
        × (v.sent
            ≡ w.sent
              ++ next_request (suc w.request_id) "GetStationStatus" (obj (field "stationId" id end))
                ∷ [])
        × (v.pending_requests
            ≡ Dict.delete n w.pending_requests ++ (suc w.request_id, station_change id) ∷ [])
  list_answered s vs waits nothing holds present =
      let (p, options, next_state) =
        list_frame host ui opens r on n text msg answer s vs waits nothing holds present in
      rw next_state (options, refl, refl)

  -- Whatever happened to the page since it was loaded: when the client is connected, its socket takes
  -- requests, and the answer to the request of a station arrives with no error and has a list of connectors, some and none of
  -- them `undefined` or `null`, then that station is the current one, the selection offers these
  -- connectors and no other in their order, and the status of the first one is asked for, of that
  -- station and under the next number; the answered request waits no more. The status of the station
  -- is shown if the one on the page is that of a working station, and otherwise the one on the page
  -- stays.
  pub station_answered :
      (id c : Value) (cs : Elements)
      → Dict.get n w.pending_requests ≡ some (station_change id)
      → IsPresent (parse_response host msg)
      → prop host (parse_response host msg) "connectors" ≡ returned (arr (cons c cs))
      → All IsPresent (c ∷ items cs)
      → let connector_id = read host c "id" in
        let v = step_manager host true opens (socket_message text) w in
        (v.page.current_station ≡ id)
        × (v.page.ui.connector_options ≡ map (connector_entry host) (c ∷ items cs))
        × (v.page.ui.station_status ≡ status_after host (parse_response host msg) w.page.ui)
        × (v.sent
            ≡ w.sent
              ++ next_request
                  (suc w.request_id)
                  "GetConnectorStatus"
                  (obj (field "stationId" id (field "connectorId" connector_id end)))
                ∷ [])
        × (v.pending_requests
            ≡ Dict.delete n w.pending_requests
              ++ (suc w.request_id, connector_change connector_id) ∷ [])
  station_answered id c cs waits present has all_present =
      let (p, chosen, connectors, status, stations, next_state) =
        station_frame host ui opens r on n text msg answer id c cs waits present has all_present in
      rw next_state (chosen, connectors, status, refl, refl)
