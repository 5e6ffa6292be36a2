-- ===== src/Central/Events.antt =====
-- `CentralSystem`: the constructor, and the events of the page and of the socket. The reactions of
-- the promises that the handler of an event settles run when it has ended.
use ocpp_server.Base.{String, ◌≢◌, Bool, true, false, none, [], ◌==◌, if◌then◌else◌, ◌<>◌, length}
use ocpp_server.Js.{nat, Value, num, str, Done, ◌>>◌, modify, Host}
use ocpp_server.Rpc.State.{Settled, nat_key, string_key, set_url}
use ocpp_server.Central.State.{
  Ui, Page, Command, disconnect_station, change_availability, get_station_info, get_configuration,
  get_variable, set_variable, reboot_station, clear_cache, request_start_transaction,
  request_stop_transaction, unlock_connector, trigger_status_notification, trigger_heartbeat,
  trigger_meter_values, Await, stations_list, station_change, connector_change, command, Handler,
  connected_handler, disconnected_handler, status_notification_handler, meter_values_handler,
  heartbeat_handler, World, Act, on_page, on_ui,
}
use ocpp_server.Central.View.{log, update_connection_status}
use ocpp_server.Central.Selection.{
  load_stations_list, stations_list_loaded, handle_station_change, station_changed,
  handle_connector_change, connector_changed, handle_status_notification, handle_meter_values,
  handle_heartbeat,
}
use ocpp_server.Central.Commands.{
  start_disconnect_station, start_change_availability, start_get_station_info,
  start_get_configuration, start_get_variable, start_set_variable, start_reboot_station,
  start_clear_cache, start_request_start_transaction, start_request_stop_transaction,
  start_unlock_connector, start_trigger_meter_values, start_trigger_status_notification,
  start_trigger_heartbeat, commanded,
}
use ocpp_server.Rpc.Core.{on_message, on_open, on_error, disconnect, drain}
use ocpp_server.Rpc.Emitter.{on}
use ocpp_server.Rpc.Web.{connect, on_close}

module _ (host : Host) where
  -- What goes on when a promise is settled.
  unfoldable pub resume : Await → Settled → Act Done
  resume stations_list r = stations_list_loaded host r
  resume (station_change id) r = station_changed host id r
  resume (connector_change id) r = connector_changed host id r
  resume (command c) r = commanded host c r

module _ (host : Host) (sends : Bool) where
  -- The handlers of `setupRpcHandlers`. `loadStationsList` catches what it throws.
  unfoldable pub run : Handler → Value → Act Done
  unfolding load_stations_list update_connection_status
  run connected_handler _ = do
    modify (update_connection_status true)
    modify (load_stations_list host sends)
  run disconnected_handler _ = modify (update_connection_status false)
  run status_notification_handler event = handle_status_notification host event
  run meter_values_handler event = handle_meter_values host event
  run heartbeat_handler event = handle_heartbeat host event

  unfoldable pub setup_rpc_handlers : World → World
  unfolding on
  setup_rpc_handlers w = on "Heartbeat" heartbeat_handler (
      on "MeterValues" meter_values_handler (
        on "StatusNotification" status_notification_handler
          (on "disconnected" disconnected_handler (on "connected" connected_handler w))))

  unfoldable pub load_initial_data : World → World
  unfolding load_stations_list
  load_initial_data w = if w.connected then load_stations_list host sends w else w

  unfoldable pub init : World → World
  unfolding setup_rpc_handlers load_initial_data
  init w =
      if w.page.is_initialized
      then w
      else on_page (λ p. record p { is_initialized = true })
          (load_initial_data (setup_rpc_handlers w))

-- The fields that the constructor sets before `init`; the elements are as the page brings them.
unfoldable pub new_page : Ui → Page
new_page ui = record {
  current_station = none;
  current_connector = none;
  stations = [];
  is_initialized = false;
  scan_rate = num (nat 1000);
  ui = ui;
}

pub data Event : Type 0 where
  -- a change of #station-select and of #connector-select, by the value chosen
  select_station select_connector : String → Event
  -- a click of a button that sends a request, with the `value` of the button
  press : Command → (value : String) → Event
  -- a click of one of the two buttons of the availability
  press_available press_unavailable : Event
  press_connect press_disconnect : Event
  press_apply : (address polling_frequency : String) → Event
  -- what the socket does
  socket_open socket_close : Event
  socket_error : Value → Event
  socket_message : String → Event

-- A socket opens only where one was made.
abbrev pub IsPossible : Event → World → Type 0
IsPossible socket_open w = w.ws ≢ none
IsPossible _ w = Unit

-- What the socket does with what it is asked during an event.
pub record Io : Type 0 where
  pub opens : Bool
  pub sends : Bool

module _ (host : Host) where
  module _ (sends : Bool) where
    -- The method that a button calls. What the last one asks for, it finds out itself.
    unfoldable pub start : Command → (value : String) → World → World
    unfolding start_disconnect_station start_change_availability start_get_station_info
        start_get_configuration start_get_variable start_set_variable start_reboot_station
        start_clear_cache start_request_start_transaction start_request_stop_transaction
        start_unlock_connector start_trigger_meter_values start_trigger_status_notification
        start_trigger_heartbeat
    start disconnect_station _ = start_disconnect_station host sends
    start change_availability _ = start_change_availability host sends
    start get_station_info _ = start_get_station_info host sends
    start get_configuration _ = start_get_configuration host sends
    start get_variable _ = start_get_variable host sends
    start set_variable _ = start_set_variable host sends
    start reboot_station _ = start_reboot_station host sends
    start clear_cache _ = start_clear_cache host sends
    start request_start_transaction _ = start_request_start_transaction host sends
    start request_stop_transaction _ = start_request_stop_transaction host sends
    start unlock_connector _ = start_unlock_connector host sends
    start trigger_status_notification _ = start_trigger_status_notification host sends
    start trigger_heartbeat _ = start_trigger_heartbeat host sends
    start (trigger_meter_values _) value = start_trigger_meter_values host sends value

  unfoldable pub apply_websocket_settings : (address polling_frequency : String) → World → World
  unfolding log set_url
  apply_websocket_settings address polling_frequency w =
      log ("Установлена частота опроса " <> polling_frequency <> " мс") (
        on_page (λ p. record p { scan_rate = str polling_frequency })
          (log ("Установлен новый ws адрес " <> address) (set_url address w)))

  unfoldable pub handle : Io → Event → World → World
  handle io (select_station value) w =
      if value == "" then w else handle_station_change host io.sends value w
  handle io (select_connector value) w =
      if value == "" then w else handle_connector_change host io.sends (host.parse_int value) w
  handle io (press c value) w = start io.sends c value w
  handle io press_available w =
      on_ui (λ u. record u { availability_on = true; availability_off = false }) w
  handle io press_unavailable w =
      on_ui (λ u. record u { availability_on = false; availability_off = true }) w
  handle io press_connect w = connect io.opens w
  handle io press_disconnect w = disconnect w
  handle io (press_apply address polling_frequency) w =
      apply_websocket_settings address polling_frequency w
  handle io socket_open w = on_open (run host io.sends) w
  handle io socket_close w = on_close (run host io.sends) w
  handle io (socket_error e) w = on_error (run host io.sends) e w
  handle io (socket_message text) w = on_message host (run host io.sends) text w

  -- One event: its handler, then the reactions of what it settled.
  unfoldable pub step : Io → Event → World → World
  unfolding handle
  step io event w = let w' = handle io event w in drain (resume host) (length w'.reactions) w'
