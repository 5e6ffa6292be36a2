-- ===== src/Ocpp/Commands.antt =====
-- `OCPPSystem`: the buttons. `sends` says whether the socket takes the request.
use ocpp_server.Base.{String, Bool, not, ◌||◌, ◌==◌, if◌then◌else◌, ◌<>◌}
use ocpp_server.Js.{
  Value, num, str, obj, end, field, truthy, Eff, Done, gets, ◌>>=◌, ◌>>◌, modify, Host, message,
  text_of,
}
use ocpp_server.Rpc.State.{Settled, resolved, rejected, nat_key, string_key}
use ocpp_server.Rpc.Monitor.{call}
use ocpp_server.Ocpp.State.{
  System, OcppWorld, Action, base_report, send_variables, trigger_status, trigger_meter,
  trigger_heartbit, action, on_system, optional,
}
use ocpp_server.Ocpp.View.{alert, add_log, station_at, update_station_display}
use ocpp_server.Ocpp.Updates.{put_station}

abbrev pub selected_station : System → Value
selected_station s = optional s.selected_station_id

abbrev pub selected_connector : System → Value
selected_connector s = optional s.selected_connector_id

-- What the buttons ask for, and the words that the log has for it.
unfoldable pub action_title : Action → String
action_title base_report = "GetBaseReport"
action_title send_variables = "SendVariables"
action_title trigger_status = "TriggerStatusNotification"
action_title trigger_meter = "TriggerMeterValues"
action_title trigger_heartbit = "TriggerHeartbit"

module _ (host : Host) where
  -- The methods of the buttons after their `await`.
  unfoldable pub acted : Action → Settled → OcppWorld → OcppWorld
  unfolding action_title add_log
  acted a (resolved response) =
      on_system (add_log (action_title a <> " выполнен: " <> host.stringify response))
  acted a (rejected e) = on_system (add_log ("Ошибка " <> action_title a <> ": " <> message host e))

  abbrev station_text_of : System → String
  station_text_of s = text_of host (selected_station s)

  -- `handleDisconnect`; the demo changes the station in the table.
  unfoldable pub handle_disconnect : Eff System Done
  unfolding station_at update_station_display add_log alert
  handle_disconnect = do
    chosen ← gets selected_station
    id ← gets station_text_of
    online ← gets (λ s. s.connection_state == "connected")
    if not (truthy chosen) then modify (alert "Please select a station first") else (do
      modify (add_log ("Отправка запроса на отключение станции: " <> id))
      if online then modify (add_log ("Станция " <> id <> " отключена")) else (do
        station ← station_at id
        modify (put_station id (record station { status = str "disconnected" }))
        modify (update_station_display (str "disconnected"))
        modify (add_log ("Станция " <> id <> " переведена в статус disconnected (демо)"))))

  module _ (sends : Bool) where
    -- The end of a button's method: the request, or a line of the log in the demo.
    unfoldable pub ask : Action → String → Value → (demo : String) → OcppWorld → OcppWorld
    unfolding add_log
    ask a method params demo w =
        if w.page.connection_state == "connected"
        then call sends method params (action a) w
        else on_system (add_log demo) w

    unfoldable pub handle_get_base_report : OcppWorld → OcppWorld
    unfolding ask add_log alert
    handle_get_base_report w =
        if not (truthy (selected_station w.page))
        then on_system (alert "Please select a station first") w
        else ask base_report "sendGetBaseReport"
            (obj (field "chargePointId" (selected_station w.page) end))
            ("GetBaseReport выполнен для " <> station_text_of w.page <> " (демо)")
            (on_system (add_log ("Отправка GetBaseReport для станции: " <> station_text_of w.page))
              w)

    unfoldable pub handle_send_variables :
        (component variable attribute : String) → OcppWorld → OcppWorld
    unfolding ask add_log alert
    handle_send_variables component variable attribute w =
        if component == "" || variable == ""
        then on_system (alert "Please fill Component and Variable fields") w
        else ask send_variables "sendVariablesReq"
            (obj (
              field "component" (str component) (
                field "variable" (str variable) (
                  field "attributeType" (str (if attribute == "" then "Actual" else attribute))
                    end))))
            "SendVariables выполнен (демо)"
            (on_system
              (add_log (
                "Отправка SendVariables: Component=" <> component <> ", Variable=" <> variable
                <> ", Attribute=" <> attribute))
              w)

    unfoldable pub handle_send_status_notification : OcppWorld → OcppWorld
    unfolding ask add_log alert
    handle_send_status_notification w =
        let connector = text_of host (selected_connector w.page) in
        if not (truthy (selected_station w.page)) || not (truthy (selected_connector w.page))
        then on_system (alert "Please select station and connector first") w
        else ask trigger_status "sendTriggerStatusNotification"
            (obj (
              field "chargePointId" (selected_station w.page)
                (field "connectorId" (num (host.parse_int connector)) end)))
            "TriggerStatusNotification выполнен (демо)"
            (on_system
              (add_log (
                "Отправка TriggerStatusNotification для станции: "
                <> station_text_of w.page
                <> ", коннектор: "
                <> connector))
              w)

    -- `evse` is the text of #evse-id-input.
    abbrev pub evse_id : String → System → Value
    evse_id evse s = if evse == "" then selected_connector s else str evse

    unfoldable pub handle_send_meter_values : (evse : String) → OcppWorld → OcppWorld
    unfolding ask add_log alert
    handle_send_meter_values evse w =
        let id = evse_id evse w.page in
        if not (truthy id)
        then on_system (alert "Please enter EVSE ID or select connector") w
        else (if not (truthy (selected_station w.page))
            then on_system (alert "Please select station first") w
            else ask trigger_meter "sendTriggerMeterValues"
                (obj (
                  field "chargePointId" (selected_station w.page)
                    (field "evseId" (num (host.parse_int (text_of host id))) end)))
                "TriggerMeterValues выполнен (демо)"
                (on_system
                  (add_log (
                    "Отправка TriggerMeterValues для станции: "
                    <> station_text_of w.page
                    <> ", EVSE: "
                    <> text_of host id))
                  w))

    unfoldable pub handle_send_heartbit : OcppWorld → OcppWorld
    unfolding ask add_log alert
    handle_send_heartbit w =
        if not (truthy (selected_station w.page))
        then on_system (alert "Please select station first") w
        else ask trigger_heartbit "sendTriggerHeartbit"
            (obj (field "chargePointId" (selected_station w.page) end))
            "TriggerHeartbit выполнен (демо)"
            (on_system
              (add_log ("Отправка TriggerHeartbit для станции: " <> station_text_of w.page)) w)
