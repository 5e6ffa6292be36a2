-- ===== src/Ocpp/State.antt =====
-- The fields of `OCPPSystem`, and what the elements of its page show.
use ocpp_server.Base.{ℕ, String, Option, none, some, List}
use ocpp_server.Js.{Value, null, str}
use ocpp_server.Rpc.State.{Client}
use ocpp_server.Central.State.{Choice, Label}

pub record Connector : Type 0 where
  -- `type`
  pub kind : String
  pub status : Value
  pub meter : Value
  pub power : Value

pub record Station : Type 0 where
  pub name : Value
  pub status : Value
  pub connector_count : ℕ
  pub max_power : ℕ
  pub connectors : List (String × Connector)

-- The elements of the page, by their ids.
pub record Screen : Type 0 where
  pub station_select : List Choice
  pub connector_select : List Choice
  -- the `display` of #station-info, #connector-selector and #connector-info
  pub station_info : String
  pub connector_selector : String
  pub connector_info : String
  pub station_id : String
  pub count_text : String
  pub power_text : String
  pub station_text : String
  -- the background of #station-icon
  pub station_icon : String
  pub connector_type : String
  pub connector_meter : String
  pub connector_power : String
  pub connector_status : Label
  -- what #log-content holds after its times of day, and what `alert` told, oldest first
  pub log_content : List String
  pub alerts : List String

-- The tables of stations and of connectors are objects; they hold the entries that the scripts put in.
pub record System : Type 0 where
  pub stations : List (String × Station)
  pub selected_station_id : Option String
  pub selected_connector_id : Option String
  pub connection_state : String
  pub screen : Screen

-- The actions that ask the server.
pub data Action : Type 0 where
  base_report send_variables trigger_status trigger_meter trigger_heartbit : Action

-- What goes on after an `await`.
pub data Waiting : Type 0 where
  points_count points_ids : Waiting
  action : Action → Waiting

pub data Listener : Type 0 where
  on_connected on_disconnected on_failure : Listener
  on_status_notification on_meter_values on_heartbeat : Listener

abbrev pub OcppWorld : Type 0
OcppWorld = Client Waiting Listener System

abbrev pub on_system : (System → System) → OcppWorld → OcppWorld
on_system f w = record w { page = f w.page }

abbrev pub on_screen : (Screen → Screen) → System → System
on_screen f s = record s { screen = f s.screen }

-- A field that holds `null` or a text.
abbrev pub optional : Option String → Value
optional none = null
optional (some t) = str t
