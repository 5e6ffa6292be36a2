-- ===== src/Manager/Events.antt =====
-- `StationManager`: the constructor, and one event of the page or of the socket with the reactions
-- that it brings. The client is the one that the page has; another script connects it.
use ocpp_server.Base.{◌*◌, String, Bool, true, false, [], if◌then◌else◌, length}
use ocpp_server.Js.{Value, null, str, Eff, Done, ◌>>◌, modify, Host}
use ocpp_server.Rpc.State.{Settled, nat_key, string_key}
use ocpp_server.Rpc.Core.{on_message, on_open, on_error, drain}
use ocpp_server.Rpc.Emitter.{on}
use ocpp_server.Rpc.Monitor.{connect, default_url, on_close, on_timer}
use ocpp_server.Central.State.{
  Handler, connected_handler, disconnected_handler, status_notification_handler,
  meter_values_handler, heartbeat_handler,
}
use ocpp_server.Manager.State.{
  ManagerUi, ManagerPage, Task, Pending, stations_list, station_change, connector_change, task,
  ManagerWorld, on_manager, on_page_act,
}
use ocpp_server.Manager.View.{show_status}
use ocpp_server.Manager.Selection.{
  note_status, note_meter_values, note_heartbeat, request_stations, request_station,
  request_connector, list_loaded, station_loaded, connector_loaded,
}
use ocpp_server.Manager.Commands.{Form, begin_task, task_ended}

module _ (host : Host) (sends : Bool) where
  -- What goes on when a promise is settled.
  unfoldable pub proceed : Pending → Settled → Eff ManagerWorld Done
  unfolding list_loaded station_loaded connector_loaded task_ended
  proceed stations_list r = list_loaded host sends r
  proceed (station_change station_id) r = station_loaded host sends station_id r
  proceed (connector_change connector_id) r = connector_loaded host sends connector_id r
  proceed (task t) r = modify (on_manager (task_ended host t r))

  -- The handlers of `setupRpcHandlers`.
  unfoldable pub hear : Handler → Value → Eff ManagerWorld Done
  unfolding show_status request_stations note_status note_meter_values note_heartbeat
  hear connected_handler _ = do
    modify (on_manager (show_status true))
    modify (request_stations host sends)
  hear disconnected_handler _ = modify (on_manager (show_status false))
  hear status_notification_handler notice = on_page_act (note_status host notice)
  hear meter_values_handler notice = on_page_act (note_meter_values host notice)
  hear heartbeat_handler notice = on_page_act (note_heartbeat host notice)

  unfoldable pub register : ManagerWorld → ManagerWorld
  unfolding on
  register w = on "Heartbeat" heartbeat_handler (
      on "MeterValues" meter_values_handler (
        on "StatusNotification" status_notification_handler
          (on "disconnected" disconnected_handler (on "connected" connected_handler w))))

  -- `loadStationsList` catches what it throws.
  unfoldable pub request_initial : ManagerWorld → ManagerWorld
  unfolding request_stations
  request_initial w = if w.connected then request_stations host sends w else w

  unfoldable pub init_manager : ManagerWorld → ManagerWorld
  unfolding register request_initial
  init_manager w =
      if w.page.is_initialized
      then w
      else on_manager (λ p. record p { is_initialized = true }) (request_initial (register w))

-- The fields that the constructor sets before `init`.
unfoldable pub new_manager : ManagerUi → ManagerPage
new_manager ui = record {
  current_station = null;
  current_connector = null;
  stations = [];
  is_initialized = false;
  ui = ui;
}

pub data ManagerEvent : Type 0 where
  -- a change of #station-select and of #connector-select, by the value chosen
  select_station select_connector : String → ManagerEvent
  press : Task → Form → ManagerEvent
  -- another script connects the client, or its wait for a new connection ends
  connect_client reconnect : ManagerEvent
  socket_open socket_close : ManagerEvent
  socket_error : Value → ManagerEvent
  socket_message : String → ManagerEvent

module _ (host : Host) (sends opens : Bool) where
  unfoldable pub handle_manager : ManagerEvent → ManagerWorld → ManagerWorld
  unfolding request_station request_connector begin_task
  handle_manager (select_station value) = request_station host sends (str value)
  handle_manager (select_connector value) = request_connector host sends (str value)
  handle_manager (press t form) = begin_task host sends t form
  handle_manager connect_client = connect opens default_url
  handle_manager reconnect = on_timer opens
  handle_manager socket_open = on_open (hear host sends)
  handle_manager socket_close = on_close (hear host sends)
  handle_manager (socket_error e) = on_error (hear host sends) e
  handle_manager (socket_message text) = on_message host (hear host sends) text

  -- One event: its handler, then the reactions of what it settled. The reaction of the list may settle
  -- a promise at once, whose reaction may settle another one.
  unfoldable pub step_manager : ManagerEvent → ManagerWorld → ManagerWorld
  unfolding handle_manager
  step_manager event w =
      let w' = handle_manager event w in drain (proceed host sends) (3 * length w'.reactions) w'
