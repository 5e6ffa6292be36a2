-- ===== src/Central/State.antt =====
-- The fields of `CentralSystem`, and what its elements of web/index.html show.
use ocpp_server.Base.{ℕ, String, Bool, Option, none, some, List}
use ocpp_server.Js.{Number, Value, null, num, str, Eff}
use ocpp_server.Rpc.State.{Client}

-- An `option` of a `select`.
pub record Choice : Type 0 where
  pub value : String
  pub text : String

pub record Label : Type 0 where
  pub text : String
  pub class_name : String

-- 'info', 'success' and 'error'
pub data Kind : Type 0 where
  info success failure : Kind

-- An entry of the log, without the time of day.
pub record Entry : Type 0 where
  pub kind : Kind
  pub message : String

pub record Ui : Type 0 where
  -- #websocket-status-led, -status-text, and whether the two buttons are disabled
  pub status_led : String
  pub status_text : String
  pub connect_disabled : Bool
  pub disconnect_disabled : Bool
  -- #station-select and #connector-select
  pub station_options : List Choice
  pub connector_options : List Choice
  -- the index of the chosen option, `none` for -1
  pub connector_index : Option ℕ
  -- #station__status, #station__connectors_count, #station__max_power
  pub station_status : Label
  pub connectors_count : String
  pub max_power : String
  -- #connector__type, #connector__status, #connector__meter, #connector__power
  pub connector_type : String
  pub connector_status : Label
  pub meter : String
  pub power : String
  -- #station_control__change_availability_on and _off
  pub availability_on : Bool
  pub availability_off : Bool
  -- .log-container, oldest entry first
  pub log : List Entry

pub record Page : Type 0 where
  pub current_station : Option String
  pub current_connector : Option Number
  pub stations : List (Value × Value)
  pub is_initialized : Bool
  pub scan_rate : Value
  pub ui : Ui

-- The buttons whose request is answered by a line of the log.
pub data Command : Type 0 where
  disconnect_station change_availability get_station_info get_configuration get_variable : Command
  set_variable reboot_station clear_cache : Command
  request_start_transaction request_stop_transaction unlock_connector : Command
  trigger_status_notification trigger_heartbeat : Command
  trigger_meter_values : (evse_id : Value) → Command

-- What goes on when a promise is settled: the rest of an async method after its `await`.
pub data Await : Type 0 where
  stations_list : Await
  station_change : String → Await
  connector_change : Number → Await
  command : Command → Await

-- The handlers that `setupRpcHandlers` registers.
pub data Handler : Type 0 where
  connected_handler disconnected_handler : Handler
  status_notification_handler meter_values_handler heartbeat_handler : Handler

abbrev pub World : Type 0
World = Client Await Handler Page

abbrev pub Act : Type 0 → Type 0
Act A = Eff World A

abbrev pub on_page : (Page → Page) → World → World
on_page f w = record w { page = f w.page }

abbrev pub on_ui : (Ui → Ui) → World → World
on_ui f w = record w { page = record (w.page) { ui = f w.page.ui } }

-- `this.current_station` and `this.current_connector` as values.
abbrev pub station_value : World → Value
station_value w = elim w.page.current_station [ none ↦ null | some id ↦ str id ]

abbrev pub connector_value : World → Value
connector_value w = elim w.page.current_connector [ none ↦ null | some n ↦ num n ]
