-- ===== src/Ocpp/Events.antt =====
-- `OCPPSystem`: one event of its page, with the reactions that it brings.
use ocpp_server.Base.{◌*◌, String, Bool, length}
use ocpp_server.Js.{Value, Eff, Done, modify, Host}
use ocpp_server.Rpc.State.{Settled}
use ocpp_server.Rpc.Core.{on_message, on_open, on_error, drain}
use ocpp_server.Rpc.Monitor.{on_close, on_timer}
use ocpp_server.Ocpp.State.{System, OcppWorld, Waiting, on_system}
use ocpp_server.Ocpp.View.{clear_log, handle_station_select, handle_connector_select}
use ocpp_server.Ocpp.Commands.{
  handle_disconnect, handle_get_base_report, handle_send_variables, handle_send_status_notification,
  handle_send_meter_values, handle_send_heartbit,
}
use ocpp_server.Ocpp.Loading.{go_on, listen}

pub data OcppEvent : Type 0 where
  -- the choices, by the value of the option
  choose_station choose_connector : String → OcppEvent
  -- clicks, with the texts of the fields that they read
  press_disconnect press_report press_status press_heartbit press_clear : OcppEvent
  press_variables : (component variable attribute : String) → OcppEvent
  press_meter : (evse : String) → OcppEvent
  -- the wait for a new connection ends
  reconnect : OcppEvent
  socket_open socket_close : OcppEvent
  socket_error : Value → OcppEvent
  socket_message : String → OcppEvent

abbrev pub act_on_system : Eff System Done → OcppWorld → OcppWorld
act_on_system act = on_system λ s. (act s).1

module _ (host : Host) where
  module _ (sends : Bool) where
    abbrev pub going_on : Waiting → Settled → Eff OcppWorld Done
    going_on k r = modify (go_on host sends k r)

    -- The listeners of `setupEventHandlers`, and what the socket does.
    unfoldable pub handle_ocpp : (opens : Bool) → OcppEvent → OcppWorld → OcppWorld
    unfolding handle_station_select handle_connector_select handle_disconnect handle_get_base_report
        handle_send_variables handle_send_status_notification handle_send_meter_values
        handle_send_heartbit clear_log
    handle_ocpp opens (choose_station id) = act_on_system (handle_station_select host id)
    handle_ocpp opens (choose_connector id) = act_on_system (handle_connector_select host id)
    handle_ocpp opens press_disconnect = act_on_system (handle_disconnect host)
    handle_ocpp opens press_report = handle_get_base_report host sends
    handle_ocpp opens (press_variables component variable attribute) =
        handle_send_variables host sends component variable attribute
    handle_ocpp opens press_status = handle_send_status_notification host sends
    handle_ocpp opens (press_meter evse) = handle_send_meter_values host sends evse
    handle_ocpp opens press_heartbit = handle_send_heartbit host sends
    handle_ocpp opens press_clear = on_system clear_log
    handle_ocpp opens reconnect = on_timer opens
    handle_ocpp opens socket_open = on_open (listen host sends)
    handle_ocpp opens socket_close = on_close (listen host sends)
    handle_ocpp opens (socket_error e) = on_error (listen host sends) e
    handle_ocpp opens (socket_message text) = on_message host (listen host sends) text

    -- One event: its handler, then the reactions of what it settled. The reaction of the count may
    -- settle a promise at once, whose reaction settles none.
    unfoldable pub step_ocpp : (opens : Bool) → OcppEvent → OcppWorld → OcppWorld
    unfolding handle_ocpp
    step_ocpp opens event w =
        let w' = handle_ocpp opens event w in drain going_on (2 * length w'.reactions) w'
