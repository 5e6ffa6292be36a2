-- ===== src/Central/Guards.antt =====
-- What a click of a button sends, and what it does not.
use ocpp_server.Base.{
  Option-cases, inl, inr, suc, String, ◌≡◌, refl, ap, ◌∙◌, Bool, true, false, [], ◌∷◌, ◌++◌,
}
use ocpp_server.Js.{Members, obj, field_of, Value, undefined, truthy, returned, Host, prop}
use ocpp_server.Js.Json.{json_of, json_members, json_members-field_of, json_members-missing}
use ocpp_server.Rpc.State.{Request, nat_key, string_key}
use ocpp_server.Central.State.{
  Command, disconnect_station, change_availability, get_station_info, get_configuration,
  get_variable, set_variable, reboot_station, clear_cache, request_start_transaction,
  request_stop_transaction, unlock_connector, trigger_status_notification, trigger_heartbeat,
  trigger_meter_values, Await, World, station_value,
}
use ocpp_server.Central.View.{log, log_error}
use ocpp_server.Central.Selection.{rpc_call}
use ocpp_server.Central.Commands.{with_station, with_station_lem}
use ocpp_server.Rpc.Emitter.{on}
use ocpp_server.Central.Events.{start}
use ocpp_server.Rpc.Core.{next_request}
use ocpp_server.Rpc.Invariant.{IsValid}
use ocpp_server.Rpc.Web.Calls.{call_sent}

refused_by :
    (act : World → World) (w : World)
    → truthy (station_value w) ≡ false
    → with_station act w ≡ log_error "Сначала выберите станцию" w
refused_by act w h = with_station_lem act w ∙ rw h

module _ (host : Host) (sends : Bool) where
  -- With no station chosen, a click of any of the buttons adds one line to the log and does nothing
  -- else: no request is made.
  pub start_refused :
      (c : Command) (value : String) (w : World)
      → truthy (station_value w) ≡ false
      → start host sends c value w ≡ log_error "Сначала выберите станцию" w
  unfolding start
  start_refused disconnect_station value w h = refused_by _ w h
  start_refused change_availability value w h = refused_by _ w h
  start_refused get_station_info value w h = refused_by _ w h
  start_refused get_configuration value w h = refused_by _ w h
  start_refused get_variable value w h = refused_by _ w h
  start_refused set_variable value w h = refused_by _ w h
  start_refused reboot_station value w h = refused_by _ w h
  start_refused clear_cache value w h = refused_by _ w h
  start_refused request_start_transaction value w h = refused_by _ w h
  start_refused request_stop_transaction value w h = refused_by _ w h
  start_refused unlock_connector value w h = refused_by _ w h
  start_refused trigger_status_notification value w h = refused_by _ w h
  start_refused trigger_heartbeat value w h = refused_by _ w h
  start_refused (trigger_meter_values _) value w h = refused_by _ w h

-- From `w` to `v` one request was sent, under the next number, and it waits for its answer; `id` is
-- its field `station_id`.
pub record Asks (host : Host) (w v : World) (id : Value) : Type 0 where
  pub request : Request
  pub sent : v.sent ≡ w.sent ++ request ∷ []
  pub numbered : request.id ≡ suc w.request_id
  pub waits : (k : Await) × (v.pending_requests ≡ w.pending_requests ++ (request.id, k) ∷ [])
  pub station : prop host request.params "station_id" ≡ returned id

-- The button whose request misspells the name of the station's field.
abbrev pub NamesStation : Command → Type 0
NamesStation (trigger_meter_values _) = ⊥
NamesStation _ = Unit

module _ (host : Host) where
  requested_by :
      (method : String) (fs : Members) (k : Await) (w v : World) (id : Value)
      → IsValid v
      → v.connected ≡ true
      → v.sent ≡ w.sent
      → v.request_id ≡ w.request_id
      → v.pending_requests ≡ w.pending_requests
      → field_of "station_id" (json_members fs) ≡ id
      → Asks host w (rpc_call true method (obj fs) k v) id
  unfolding rpc_call json_of
  requested_by method fs k w v id valid on same_sent same_id same_table named =
      let r = next_request (suc v.request_id) method (obj fs) in
      let e = call_sent method (obj fs) k v valid on in
      record {
        request = r;
        sent = ap (λ u. u.sent) e ∙ ap (λ rs. rs ++ r ∷ []) same_sent;
        numbered = ap suc same_id;
        waits = (
          k,
          ap (λ u. u.pending_requests) e ∙ ap (λ m. m ++ (suc v.request_id, k) ∷ []) same_table,
        );
        station = ap returned named;
      }

  -- The number of the station is a text or null, which the text of the request keeps.
  station_taken :
      (w : World) (fs : Members)
      → field_of "station_id" fs ≡ station_value w
      → field_of "station_id" (json_members fs) ≡ station_value w
  unfolding json_of
  station_taken w fs named = elim (Option-cases w.page.current_station) [
    | inl missing ↦
        json_members-field_of "station_id" fs (rw (named, missing) refl) ∙ rw (named, missing) refl
    | inr (id, there) ↦
        json_members-field_of "station_id" fs (rw (named, there) refl) ∙ rw (named, there) refl
  ]

  chosen :
      (act : World → World) (w : World) (id : Value)
      → truthy (station_value w) ≡ true
      → Asks host w (act w) id
      → Asks host w (with_station act w) id
  chosen act w id h a = rw (with_station_lem act w) (rw h a)

  module _ (w : World) (valid : IsValid w) (on : w.connected ≡ true)
      (there : truthy (station_value w) ≡ true) where
    plain :
        (method : String) (fs : Members) (k : Await)
        → field_of "station_id" fs ≡ station_value w
        → Asks host w (rpc_call true method (obj fs) k w) (station_value w)
    plain method fs k named =
        requested_by method fs k w w _ valid on refl refl refl (station_taken w fs named)

    -- With a station chosen, on a connection that takes the request, a click sends one request: it
    -- has the next number, waits for its answer and names the chosen station. The button of the
    -- meter values is left out.
    pub start-Asks :
        (c : Command) (value : String)
        → NamesStation c
        → Asks host w (start host true c value w) (station_value w)
    unfolding start log
    start-Asks disconnect_station value h = chosen _ w _ there (
        requested_by _ _ _ w _ _
          (record { ids = valid.ids; sent_ids = valid.sent_ids; socket = valid.socket }) on refl
          refl refl (station_taken w _ refl))
    start-Asks change_availability value h = chosen _ w _ there (plain _ _ _ refl)
    start-Asks get_station_info value h = chosen _ w _ there (plain _ _ _ refl)
    start-Asks get_configuration value h = chosen _ w _ there (plain _ _ _ refl)
    start-Asks get_variable value h = chosen _ w _ there (plain _ _ _ refl)
    start-Asks set_variable value h = chosen _ w _ there (plain _ _ _ refl)
    start-Asks reboot_station value h = chosen _ w _ there (plain _ _ _ refl)
    start-Asks clear_cache value h = chosen _ w _ there (plain _ _ _ refl)
    start-Asks request_start_transaction value h = chosen _ w _ there (plain _ _ _ refl)
    start-Asks request_stop_transaction value h = chosen _ w _ there (plain _ _ _ refl)
    start-Asks unlock_connector value h = chosen _ w _ there (plain _ _ _ refl)
    start-Asks trigger_status_notification value h = chosen _ w _ there (plain _ _ _ refl)
    start-Asks trigger_heartbeat value h = chosen _ w _ there (plain _ _ _ refl)
    start-Asks (trigger_meter_values _) value h = absurd h

    -- The request that this button sends is otherwise alike, but has no field `station_id`, so it names no station.
    pub trigger_meter_values_nameless :
        (evse_id : Value) (value : String)
        → Asks host w (start host true (trigger_meter_values evse_id) value w) undefined
    unfolding start
    trigger_meter_values_nameless evse_id value = chosen _ w _ there (
        requested_by _ _ _ w w _ valid on refl refl refl (json_members-missing "station_id" _ refl))
