-- ===== src/Ocpp/Sequence.antt =====
-- `loadStations`: the answer with the count brings the request for the names, and its answer the stations.
use ocpp_server.Base.{
  refl, List, if◌then◌else◌, String, ℕ, suc, String, ◌≡◌, ap, ◌∙◌, Bool, true, false, some, [], ◌∷◌,
  ◌++◌,
}
use ocpp_server.Base.Dict.{Key}
use ocpp_server.Base.Dict
use ocpp_server.Js.{null, nat, Value, num, obj, end, truthy, is_string, returned, Host, prop}
use ocpp_server.Rpc.State.{string_key, resolved, nat_key}
use ocpp_server.Rpc.Core.{next_request}
use ocpp_server.Rpc.Invariant.{IsValid}
use ocpp_server.Rpc.Agreement.{monitor_sent}
use ocpp_server.Rpc.Frames.{after_answer, after_answer-IsValid, frame_answers}
use ocpp_server.Ocpp.State.{Screen, OcppWorld, Waiting, points_count, points_ids}
use ocpp_server.Ocpp.History.{Run, loaded, Run-IsSettled}
use ocpp_server.Ocpp.Loading.{go_on, listen, iterated, parse_response, default_station}
use ocpp_server.Ocpp.Table.{is_in, connectors_of, ids_loaded-connectors}
use ocpp_server.Ocpp.Events.{socket_message, going_on, handle_ocpp, step_ocpp}

module _ (host : Host) (screen : Screen) (found once opens : Bool) {w : OcppWorld}
    (r : Run host (loaded host screen found once) w) (n : ℕ) (text : String) (msg e : Value)
    (parsed : host.parse text ≡ some msg) (whole : is_string msg ≡ false)
    (numbered : prop host msg "id" ≡ returned (num (nat n)))
    (sound : prop host msg "error" ≡ returned e) (fine : truthy e ≡ false) where
  valid : IsValid w
  valid = (Run-IsSettled host screen found once r).0

  quiet : w.reactions ≡ []
  quiet = (Run-IsSettled host screen found once r).1

  stepped :
      (k : Waiting)
      → Dict.get n w.pending_requests ≡ some k
      → (go_on host true k (resolved msg) (after_answer n w)).reactions ≡ []
      → step_ocpp host true opens (socket_message text) w
        ≡ go_on host true k (resolved msg) (after_answer n w)
  unfolding step_ocpp handle_ocpp
  stepped k waits after =
      frame_answers host (listen host true) (going_on host true) w valid quiet n text msg e parsed
        whole numbered sound fine k 2 1 refl waits after

  -- Whatever happened to the page since it was loaded, when the client is connected and the answer with
  -- the count of the stations arrives with no error, the page asks for their names: the request
  -- is sent under the next number and waits, and the answered one waits no more.
  pub count_answered :
      w.connected ≡ true
      → Dict.get n w.pending_requests ≡ some points_count
      → step_ocpp host true opens (socket_message text) w ≡ record w {
        request_id = suc w.request_id;
        pending_requests = Dict.delete n w.pending_requests ++ (suc w.request_id, points_ids) ∷ [];
        sent = w.sent ++ next_request (suc w.request_id) "getChargePointIds" (obj end) ∷ [];
        reactions = [];
      }
  unfolding go_on
  count_answered on waits =
      let sent =
        monitor_sent "getChargePointIds" (obj end) points_ids (after_answer n w)
          (after_answer-IsValid n w valid) on in
      stepped points_count waits (ap (λ v. v.reactions) sent) ∙ sent

  -- And when the answer with the names arrives with no error and holds a list: the stations named in it
  -- have the two available connectors with empty meters, whatever they had, the others have the
  -- connectors that they had, and the answered request waits no more.
  pub names_answered :
      (ids : List Value)
      → Dict.get n w.pending_requests ≡ some points_ids
      → iterated host (parse_response host msg) ≡ returned ids
      → let v = step_ocpp host true opens (socket_message text) w in
        ((k : String)
          → connectors_of host (Dict.get k v.page.stations) ≡ (
              if is_in host k ids
              then some (default_station null).connectors
              else connectors_of host (Dict.get k w.page.stations)))
        × (v.pending_requests ≡ Dict.delete n w.pending_requests)
  unfolding go_on
  names_answered ids waits listed =
      rw (stepped points_ids waits refl)
        ((λ k. ids_loaded-connectors host msg ids w.page k listed), refl)
