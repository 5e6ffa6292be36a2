-- ===== src/Manager/State.antt =====
-- The fields of `StationManager`, and what its elements show.
use ocpp_server.Base.{String, Bool, Option, List}
use ocpp_server.Js.{Value, Eff}
use ocpp_server.Rpc.State.{Client}
use ocpp_server.Central.State.{Choice, Label, Handler, Entry}

pub record ManagerUi : Type 0 where
  -- #station-select and #connector-select
  pub station_options : List Choice
  pub connector_options : List Choice
  -- the three values of .station-info
  pub station_status : Label
  pub connectors_count : String
  pub max_power : String
  -- the four values of .connector-info
  pub connector_type : String
  pub connector_status : Label
  pub meter : String
  pub power : String
  -- .connection-status, if there is one
  pub connection_status : Option Label
  -- .log-container, oldest entry first
  pub log : List Entry

pub record ManagerPage : Type 0 where
  pub current_station : Value
  pub current_connector : Value
  pub stations : List (Value × Value)
  pub is_initialized : Bool
  pub ui : ManagerUi

-- The buttons.
pub data Task : Type 0 where
  disable_station get_station_info get_configuration get_variable : Task
  set_variable reboot_station clear_cache : Task
  request_start_transaction request_stop_transaction unlock_connector : Task
  trigger_status_notification trigger_heartbeat : Task
  trigger_meter_values : (evse_id : Value) → Task

-- The rest of an async method after its `await`.
pub data Pending : Type 0 where
  stations_list : Pending
  station_change connector_change : Value → Pending
  task : Task → Pending

-- The handlers that `setupRpcHandlers` registers have the names that they have in `CentralSystem`.
abbrev pub ManagerWorld : Type 0
ManagerWorld = Client Pending Handler ManagerPage

abbrev pub on_manager : (ManagerPage → ManagerPage) → ManagerWorld → ManagerWorld
on_manager f w = record w { page = f w.page }

-- What acts on the page alone.
abbrev pub on_page_act : {A : Type 0} → Eff ManagerPage A → Eff ManagerWorld A
on_page_act m w = let r = m w.page in (r.0, record w { page = r.1 })

abbrev pub with_ui : (ManagerUi → ManagerUi) → ManagerPage → ManagerPage
with_ui f p = record p { ui = f p.ui }
