-- ===== src/Manager/Notices.antt =====
-- `StationManager`: the notifications, from the frame to the page.
use ocpp_server.Base.{
  ◌*◌, String, ◌≡◌, refl, ap, ◌∙◌, ◌⊎◌, inl, inr, Bool, true, false, some, [], arith, ◌==◌,
  if◌then◌else◌, ◌<>◌, length,
}
use ocpp_server.Base.Dict.{Key}
use ocpp_server.Base.Dict
use ocpp_server.Js.{Value, str, truthy, strict_eq, is_string, returned, Host, prop, read}
use ocpp_server.Rpc.State.{nat_key, string_key}
use ocpp_server.Rpc.Emitter.Registration.{emit_single}
use ocpp_server.Rpc.Emitter.{emit, handlers}
use ocpp_server.Rpc.Core.{drain}
use ocpp_server.Rpc.Notices.{on_message-notice}
use ocpp_server.Rpc.Draining.{drain-quiet}
use ocpp_server.Central.State.{status_notification_handler, meter_values_handler}
use ocpp_server.Manager.State.{ManagerUi, ManagerPage, ManagerWorld, on_manager}
use ocpp_server.Manager.View.{
  write_info, show_station_status, show_connector_status, status_label, connector_status_label,
}
use ocpp_server.Manager.Selection.{note_status, note_meter_values}
use ocpp_server.Manager.Events.{proceed, hear, socket_message, handle_manager, step_manager}
use ocpp_server.Manager.History.{Run, loaded, manager-IsSettled, Run-IsRegistered}
use ocpp_server.Manager.Listing.{IsPresent, IsPresent-prop}

module _ (host : Host) (ui : ManagerUi) (sends opens : Bool) {w : ManagerWorld}
    (r : Run host (loaded host ui) w) (text : String) (msg id notice : Value)
    (parsed : host.parse text ≡ some msg) (whole : is_string msg ≡ false)
    (numbered : prop host msg "id" ≡ returned id) (nameless : truthy id ≡ false)
    (has_params : prop host msg "params" ≡ returned notice) (present : IsPresent notice) where
  emit_status :
      emit (hear host sends) "StatusNotification" notice w
      ≡ (hear host sends status_notification_handler notice w).1
  unfolding handlers Dict.has Dict.get
  emit_status =
      emit_single (hear host sends) "StatusNotification" notice status_notification_handler w
        (rw (Run-IsRegistered host ui r) refl) (rw (Run-IsRegistered host ui r) refl)

  emit_meter_values :
      emit (hear host sends) "MeterValues" notice w
      ≡ (hear host sends meter_values_handler notice w).1
  unfolding handlers Dict.has Dict.get
  emit_meter_values =
      emit_single (hear host sends) "MeterValues" notice meter_values_handler w
        (rw (Run-IsRegistered host ui r) refl) (rw (Run-IsRegistered host ui r) refl)

  handled :
      (method : String) (v : ManagerWorld)
      → prop host msg "method" ≡ returned (str method)
      → (method == "") ≡ false
      → emit (hear host sends) method notice w ≡ v
      → v.reactions ≡ w.reactions
      → step_manager host sends opens (socket_message text) w ≡ v
  unfolding step_manager handle_manager
  handled method v has_method named emitted same =
      let quiet : v.reactions ≡ [] = same ∙ (manager-IsSettled host ui r).1 in
      ap (λ (u : ManagerWorld). drain (proceed host sends) (3 * length u.reactions) u)
        (on_message-notice host (hear host sends) method msg id notice whole numbered nameless
            has_method named has_params text w parsed
          ∙ emitted)
      ∙ drain-quiet (proceed host sends) _ v quiet

  status_unseen :
      strict_eq (read host notice "stationId") w.page.current_station ≡ false
      → (hear host sends status_notification_handler notice w).1
        ≡ on_manager (write_info ("StatusNotification: " <> host.stringify notice)) w
  unfolding hear note_status
  status_unseen other = rw (IsPresent-prop host notice "stationId" present, other) refl

  meter_unseen :
      strict_eq (read host notice "stationId") w.page.current_station ≡ false
      → (hear host sends meter_values_handler notice w).1
        ≡ on_manager (write_info ("MeterValues: " <> host.stringify notice)) w
  unfolding hear note_meter_values
  meter_unseen other = rw (IsPresent-prop host notice "stationId" present, other) refl

  -- Whatever happened to the page since it was loaded, a frame with no number and with a status
  -- notification or with meter values, whose parameters are neither `undefined` nor `null` and name
  -- another station than the current one, adds a line to the log and changes nothing else.
  pub others_unseen :
      (method : String)
      → (method ≡ "StatusNotification") ⊎ (method ≡ "MeterValues")
      → prop host msg "method" ≡ returned (str method)
      → strict_eq (read host notice "stationId") w.page.current_station ≡ false
      → (line : String) × (step_manager host sends opens (socket_message text) w
          ≡ on_manager (write_info line) w)
  others_unseen method (inl is_status) has_method other = (
    _,
    handled "StatusNotification" _ (has_method ∙ ap (λ m. returned (str m)) is_status) refl
        (emit_status ∙ status_unseen other) refl,
  )
  others_unseen method (inr is_meter) has_method other = (
    _,
    handled "MeterValues" _ (has_method ∙ ap (λ m. returned (str m)) is_meter) refl
        (emit_meter_values ∙ meter_unseen other) refl,
  )

  note_status-shown :
      (p : ManagerPage)
      → strict_eq (read host notice "stationId") p.current_station ≡ true
      → let q = (note_status host notice p).1 in
        (q.ui.station_status ≡ status_label host (read host notice "status"))
        × (q.ui.connector_status ≡ (
            if strict_eq (read host notice "connectorId") p.current_connector
            then connector_status_label host (read host notice "connectorStatus")
            else p.ui.connector_status))
  unfolding note_status show_station_status show_connector_status write_info
  note_status-shown p here =
      rw (IsPresent-prop host notice "stationId" present, here) (ground arith)

  -- Whatever happened to the page since it was loaded, a frame with no number and with a status
  -- notification, whose parameters are neither `undefined` nor `null` and name the current station,
  -- shows the status of the station, and shows that of the connector if it names the current
  -- connector and leaves it as it was if not; nothing is sent.
  pub status_shown :
      prop host msg "method" ≡ returned (str "StatusNotification")
      → strict_eq (read host notice "stationId") w.page.current_station ≡ true
      → let v = step_manager host sends opens (socket_message text) w in
        (v.page.ui.station_status ≡ status_label host (read host notice "status"))
        × (v.page.ui.connector_status ≡ (
            if strict_eq (read host notice "connectorId") w.page.current_connector
            then connector_status_label host (read host notice "connectorStatus")
            else w.page.ui.connector_status))
        × (v.sent ≡ w.sent)
  unfolding hear
  status_shown has_method here =
      rw (handled "StatusNotification" _ has_method refl emit_status refl)
        (let (station, connector) = note_status-shown w.page here in (station, connector, refl))
