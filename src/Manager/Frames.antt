-- ===== src/Manager/Frames.antt =====
-- `StationManager` from a frame with an answer to the state that its reaction leaves.
use ocpp_server.Base.{
  ℕ, suc, String, ◌≡◌, refl, ap, ◌∙◌, Bool, true, false, some, [], ◌∷◌, ◌++◌, map, All,
}
use ocpp_server.Base.Dict.{Key}
use ocpp_server.Base.Dict
use ocpp_server.Js.{
  Value, arr, obj, Elements, cons, end, field, items, truthy, returned, Host, prop, read,
}
use ocpp_server.Rpc.State.{nat_key, string_key}
use ocpp_server.Rpc.State.{resolved}
use ocpp_server.Rpc.Core.{next_request}
use ocpp_server.Rpc.Invariant.{IsValid}
use ocpp_server.Rpc.Upheld.{IsValid-IsUpheld}
use ocpp_server.Rpc.Agreement.{monitor_sent}
use ocpp_server.Rpc.Frames.{IsAnswer, after_answer, after_answer-IsValid, frame_answers}
use ocpp_server.Rpc.Monitor.{call}
use ocpp_server.Central.Selection.{parse_response}
use ocpp_server.Manager.State.{
  ManagerPage, ManagerUi, ManagerWorld, Pending, stations_list, station_change, connector_change,
}
use ocpp_server.Manager.View.{write_info}
use ocpp_server.Manager.Selection.{request_station, request_connector}
use ocpp_server.Manager.Events.{proceed, hear, socket_message, handle_manager, step_manager}
use ocpp_server.Manager.History.{Run, loaded, manager-IsSettled}
use ocpp_server.Manager.Listing.{IsPresent, choice_of, list_loaded-arr}
use ocpp_server.Manager.Chosen.{Chooses, connector_loaded-Chooses}
use ocpp_server.Manager.Choosing.{status_after, connector_entry, station_loaded-arr}

-- The client when the request `n` has been answered and the next one was sent.
abbrev pub asking : ℕ → String → Value → Pending → ManagerPage → ManagerWorld → ManagerWorld
asking n method params k p w = record w {
  request_id = suc w.request_id;
  pending_requests = Dict.delete n w.pending_requests ++ (suc w.request_id, k) ∷ [];
  sent = w.sent ++ next_request (suc w.request_id) method params ∷ [];
  reactions = [];
  page = p;
}

module _ (host : Host) (ui : ManagerUi) (opens : Bool) {w : ManagerWorld}
    (r : Run host (loaded host ui) w) (on : w.connected ≡ true) (n : ℕ) (text : String)
    (msg : Value) (answer : IsAnswer host n text msg) where
  valid : IsValid w
  valid = (manager-IsSettled host ui r).0

  stepped :
      (k : Pending)
      → Dict.get n w.pending_requests ≡ some k
      → (proceed host true k (resolved msg) (after_answer n w)).1.reactions ≡ []
      → step_manager host true opens (socket_message text) w
        ≡ (proceed host true k (resolved msg) (after_answer n w)).1
  unfolding step_manager handle_manager
  stepped k waits after =
      frame_answers host (hear host true) (proceed host true) w valid
        (manager-IsSettled host ui r).1 n text msg answer.fine.0 answer.parsed answer.whole
        answer.numbered answer.fine.1 answer.fine.2 k 3 2 refl waits after

  -- The next request, with the page as the reaction has left it.
  asks :
      (method : String) (params : Value) (k : Pending) (p : ManagerPage)
      → call true method params k (record (after_answer n w) { page = p })
        ≡ asking n method params k p w
  asks method params k p =
      monitor_sent method params k (record (after_answer n w) { page = p })
        (IsValid-IsUpheld.steady.pages p (after_answer n w) (after_answer-IsValid n w valid)) on

  pub list_frame :
      (s : Value) (vs : Elements)
      → Dict.get n w.pending_requests ≡ some stations_list
      → truthy w.page.current_station ≡ false
      → parse_response host msg ≡ arr (cons s vs)
      → All IsPresent (s ∷ items vs)
      → (p : ManagerPage) × (p.ui.station_options ≡ map (choice_of host) (s ∷ items vs))
        × (step_manager host true opens (socket_message text) w
            ≡ asking n "GetStationStatus"
                (obj (field "stationId" (read host s "id") end))
                (station_change (read host s "id"))
                p
                w)
  unfolding proceed request_station write_info
  list_frame s vs waits nothing holds present =
      let (m, done_so) =
        list_loaded-arr host true msg s vs (after_answer n w) holds present nothing in
      let asked = ap (λ t. t.1) done_so ∙ asks _ _ _ _ in
      (_, refl, stepped stations_list waits (ap (λ v. v.reactions) asked) ∙ asked)

  pub station_frame :
      (id c : Value) (cs : Elements)
      → Dict.get n w.pending_requests ≡ some (station_change id)
      → IsPresent (parse_response host msg)
      → prop host (parse_response host msg) "connectors" ≡ returned (arr (cons c cs))
      → All IsPresent (c ∷ items cs)
      → (p : ManagerPage) × (p.current_station ≡ id)
        × (p.ui.connector_options ≡ map (connector_entry host) (c ∷ items cs))
        × (p.ui.station_status ≡ status_after host (parse_response host msg) w.page.ui)
        × (p.ui.station_options ≡ w.page.ui.station_options)
        × (step_manager host true opens (socket_message text) w
            ≡ asking n "GetConnectorStatus"
                (obj (field "stationId" id (field "connectorId" (read host c "id") end)))
                (connector_change (read host c "id"))
                p
                w)
  unfolding proceed request_connector write_info
  station_frame id c cs waits present has all_present =
      let (u, status, options, done_so) =
        station_loaded-arr host true id msg c cs (after_answer n w) present has all_present in
      let asked = ap (λ t. t.1) done_so ∙ asks _ _ _ _ in
      (
        _,
        refl,
        refl,
        status,
        options,
        stepped (station_change id) waits (ap (λ v. v.reactions) asked) ∙ asked,
      )

  pub connector_frame :
      (id : Value)
      → Dict.get n w.pending_requests ≡ some (connector_change id)
      → (p : ManagerPage) × Chooses w.page.current_station id w.page.ui.station_options
          w.page.ui.connector_options p
        × (step_manager host true opens (socket_message text) w
            ≡ record (after_answer n w) { page = p })
  unfolding proceed
  connector_frame id waits =
      let (p, chooses, done_so) =
        connector_loaded-Chooses w.page.current_station id w.page.ui.station_options
          w.page.ui.connector_options host true msg (after_answer n w) refl refl refl in
      (p, chooses, stepped (connector_change id) waits (ap (λ v. v.reactions) done_so) ∙ done_so)
