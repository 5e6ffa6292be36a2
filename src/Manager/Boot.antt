-- ===== src/Manager/Boot.antt =====
-- `StationManager` from the answered list to the choice of the first station and its first connector.
use ocpp_server.Base.{
  ℕ, suc, String, ◌≡◌, refl, sym, ap, ◌∙◌, Bool, true, false, some, List, [], ◌∷◌, ◌++◌, map, arith,
  All,
}
use ocpp_server.Base.Dict.{Key}
use ocpp_server.Base.Dict
use ocpp_server.Js.{
  Value, arr, obj, Elements, cons, end, field, items, truthy, returned, Host, prop, read,
}
use mathlib.Core.Path.{subst}
use mathlib.Core.List.{append_assoc}
use ocpp_server.Rpc.State.{Request, nat_key, string_key}
use ocpp_server.Rpc.Core.{next_request}
use ocpp_server.Rpc.Pending.{Rising-delete, get-append_last, delete-append_last}
use ocpp_server.Rpc.Frames.{IsAnswer}
use ocpp_server.Central.Selection.{parse_response}
use ocpp_server.Manager.State.{ManagerPage, ManagerUi, ManagerWorld, Pending, stations_list}
use ocpp_server.Manager.Events.{socket_message, step_manager}
use ocpp_server.Manager.History.{Run, next, loaded, manager-IsSettled}
use ocpp_server.Manager.Listing.{IsPresent, choice_of}
use ocpp_server.Manager.Choosing.{connector_entry}
use ocpp_server.Manager.Chosen.{Chooses}
use ocpp_server.Manager.Frames.{asking, list_frame, station_frame, connector_frame}

-- The last request of `w` has the number `n` and waits, and `base` are the others that wait.
record IsAsking (base : List (ℕ × Pending)) (n : ℕ) (k : Pending) (w : ManagerWorld) : Type 0 where
  pub number : w.request_id ≡ n
  pub on : w.connected ≡ true
  pub waits : Dict.get n w.pending_requests ≡ some k
  pub rest : Dict.delete n w.pending_requests ≡ base

-- A text of the socket, whose next request is taken.
abbrev pub hears : Host → Bool → String → ManagerWorld → ManagerWorld
hears host opens text = step_manager host true opens (socket_message text)

module _ (host : Host) (ui : ManagerUi) where
  asking-IsAsking :
      {w : ManagerWorld} (n : ℕ) (method : String) (params : Value) (k : Pending) (p : ManagerPage)
      (v : ManagerWorld)
      → Run host (loaded host ui) w
      → w.connected ≡ true
      → v ≡ asking n method params k p w
      → IsAsking (Dict.delete n w.pending_requests) (suc w.request_id) k v
  asking-IsAsking {w} n method params k p v r on e =
      let left =
        Rising-delete 0 w.request_id n w.pending_requests (manager-IsSettled host ui r).0.ids in
      rw e (record {
        number = refl;
        on = on;
        waits = get-append_last 0 w.request_id (suc w.request_id) k _ left (omega arith);
        rest = delete-append_last 0 w.request_id (suc w.request_id) k _ left (omega arith);
      })

  module _ (opens : Bool) where
    hears-Run :
        {w : ManagerWorld} (text : String)
        → Run host (loaded host ui) w
        → Run host (loaded host ui) (hears host opens text w)
    hears-Run text r = next true opens (socket_message text) r tt

    -- Whatever happened to the page since it was loaded: when the client is connected, its socket takes
    -- requests, no station is chosen, the request of the list waits, and three answers with no error
    -- arrive, each to the last request, the first with a list of stations that begins with `s` and the
    -- second with a list of connectors that begins with `c`, none of them `undefined` or `null`, then
    -- the station `s` and the connector `c` are the current ones, the selections offer these stations
    -- and these connectors, exactly the status of that station and that of its connector were
    -- asked for, and no request waits that did not wait before.
    pub boot-Chooses :
        {w : ManagerWorld} (r : Run host (loaded host ui) w) (n : ℕ) (text text' text'' : String)
        (msg msg' msg'' s c : Value) (vs cs : Elements)
        → w.connected ≡ true
        → truthy w.page.current_station ≡ false
        → Dict.get n w.pending_requests ≡ some stations_list
        → IsAnswer host n text msg
        → parse_response host msg ≡ arr (cons s vs)
        → All IsPresent (s ∷ items vs)
        → IsAnswer host (suc w.request_id) text' msg'
        → IsPresent (parse_response host msg')
        → prop host (parse_response host msg') "connectors" ≡ returned (arr (cons c cs))
        → All IsPresent (c ∷ items cs)
        → IsAnswer host (suc (suc w.request_id)) text'' msg''
        → let id = read host s "id" in
          let connector_id = read host c "id" in
          let v = hears host opens text'' (hears host opens text' (hears host opens text w)) in
          Chooses id connector_id
            (map (choice_of host) (s ∷ items vs))
            (map (connector_entry host) (c ∷ items cs))
            v.page
          × (v.pending_requests ≡ Dict.delete n w.pending_requests)
          × (v.sent
              ≡ w.sent
                ++ next_request
                    (suc w.request_id)
                    "GetStationStatus"
                    (obj (field "stationId" id end))
                  ∷ next_request
                      (suc (suc w.request_id))
                      "GetConnectorStatus"
                      (obj (field "stationId" id (field "connectorId" connector_id end)))
                  ∷ [])
    boot-Chooses {w} r n text text' text'' msg msg' msg'' s c vs cs on nothing waits a holds present
          a' present' has all_present a'' =
        let u = hears host opens text w in
        let v = hears host opens text' u in
        let r' : Run host (loaded host ui) u = hears-Run text r in
        let r'' : Run host (loaded host ui) v = hears-Run text' r' in
        let (p, stations, e) =
          list_frame host ui opens r on n text msg a s vs waits nothing holds present in
        let i = asking-IsAsking n _ _ _ p u r on e in
        let (p', chosen, connectors, status, same, e') =
          station_frame host ui opens r' i.on (suc w.request_id) text' msg' a' (read host s "id") c
            cs i.waits present' has all_present in
        let i' = asking-IsAsking (suc w.request_id) _ _ _ p' v r' i.on e' in
        let last = subst (λ m. IsAnswer host (suc m) text'' msg'') (sym i.number) a'' in
        let (p'', chooses, e'') =
          connector_frame host ui opens r'' i'.on (suc u.request_id) text'' msg'' last
            (read host c "id") i'.waits in
        rw e'' (
          record {
            station_is = chooses.station_is ∙ ap (λ x. x.page.current_station) e' ∙ chosen;
            connector_is = chooses.connector_is;
            stations_are =
                chooses.stations_are
                ∙ ap (λ x. x.page.ui.station_options) e'
                ∙ same
                ∙ ap (λ x. x.page.ui.station_options) e
                ∙ stations;
            connectors_are =
                chooses.connectors_are ∙ ap (λ x. x.page.ui.connector_options) e' ∙ connectors;
          },
          i'.rest ∙ i.rest,
          ap (λ x. x.sent) e'
              ∙ ap (λ m. u.sent ++ asks_connector m ∷ []) i.number
              ∙ ap (λ rs. rs ++ asks_connector (suc w.request_id) ∷ []) (ap (λ x. x.sent) e)
              ∙ append_assoc w.sent
                  (next_request (suc w.request_id) "GetStationStatus"
                      (obj (field "stationId" (read host s "id") end))
                    ∷ [])
                  (asks_connector (suc w.request_id) ∷ []),
        )
      where
        asks_connector : ℕ → Request
        asks_connector m = next_request (suc m) "GetConnectorStatus" (
            obj (field "stationId" (read host s "id") (field "connectorId" (read host c "id") end)))
