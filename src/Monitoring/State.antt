-- ===== src/Monitoring/State.antt =====
-- `MonitoringSystem`: what its methods write to the page. The log leaves out the times of day.
use ocpp_server.Base.{
  Option, ℕ, suc, ◌/◌, ◌%◌, String, Bool, true, false, List, [], ◌∷◌, ◌++◌, ◌==◌, ltb,
  if◌then◌else◌,
}
use ocpp_server.Js.{Value}
use ocpp_server.Rpc.State.{Client}
use ocpp_server.Central.State.{Label}

-- A button, by whether it is disabled and by its opacity.
pub record Button : Type 0 where
  pub disabled : Bool
  pub opacity : String

-- A child of #eventLog: an entry, or the text between the tags.
pub data Node : Type 0 where
  element : String → Node
  white : Node

-- An element that shows a value.
pub record Shown : Type 0 where
  pub text : String
  pub color : String

-- #powerBar, by what was assigned to its style.
pub record Bar : Type 0 where
  pub width : String
  pub background : String

-- The elements that the methods below write, and what `alert` told, oldest first.
pub record Panel : Type 0 where
  -- the elements that `getElementById` finds for the name of a value
  pub shown : List (String × Shown)
  pub power_bar : Option Bar
  pub start_charging : Button
  pub stop_charging : Button
  -- the text and the class of #connectionStatus
  pub connection_status : Label
  pub event_log : List Node
  pub alerts : List String

pub record Monitor : Type 0 where
  pub values : List (String × Value)
  pub connection_state : String
  pub panel : Panel
  -- how many timers call `updateMetrics` once a second, and how many wait to call `debugMetrics`
  pub intervals : ℕ
  pub timeouts : ℕ

-- What goes on after an `await`.
pub data Pause : Type 0 where
  initial_values metrics debug_metrics direct_metrics test_value : Pause
  command : String → Pause

-- The handlers that `init` registers.
pub data Receiver : Type 0 where
  at_connected at_disconnected at_error at_value_changed : Receiver
  at_charging_started at_charging_stopped at_metrics_update : Receiver

abbrev pub MonitorWorld : Type 0
MonitorWorld = Client Pause Receiver Monitor

abbrev pub on_monitor : (Monitor → Monitor) → MonitorWorld → MonitorWorld
on_monitor f w = record w { page = f w.page }

abbrev pub with_panel : (Panel → Panel) → Monitor → Monitor
with_panel f m = record m { panel = f m.panel }

abbrev pub on_panel : (Panel → Panel) → MonitorWorld → MonitorWorld
on_panel f w = record w { page = with_panel f w.page }

abbrev button : (disabled : Bool) (opacity : String) → Button
button disabled opacity = record { disabled = disabled; opacity = opacity }

unfoldable pub update_button_states : (charging_enabled : Bool) → Panel → Panel
update_button_states charging_enabled p =
    if charging_enabled
    then record p { start_charging = button true "0.6"; stop_charging = button false "1" }
    else record p { start_charging = button false "1"; stop_charging = button true "0.6" }

-- The colour of a status; the names that every object inherits are left out.
unfoldable pub status_color : String → String
status_color status =
    if status == "ready"
    then "#27ae60"
    else (if status == "charging"
        then "#3498db"
        else (if status == "error"
            then "#e74c3c"
            else (if status == "maintenance" then "#f39c12" else "#2c3e50")))

unfoldable pub update_panel_connection : (connected : Bool) → Panel → Panel
update_panel_connection connected p = record p {
  connection_status =
      if connected
      then record { text = "Online"; class_name = "status-online" }
      else record { text = "Offline"; class_name = "status-offline" };
}

-- The parts of a number of seconds that is a non-negative integer.
abbrev pub days : ℕ → ℕ
days seconds = seconds / 86400

abbrev pub hours : ℕ → ℕ
hours seconds = seconds % 86400 / 3600

abbrev pub minutes : ℕ → ℕ
minutes seconds = seconds % 3600 / 60

abbrev pub secs : ℕ → ℕ
secs seconds = seconds % 60

-- The parts that the text of an uptime holds, with their letters.
unfoldable pub uptime_parts : ℕ → List (ℕ × String)
uptime_parts seconds =
    if ltb 0 (days seconds)
    then (days seconds, "d") ∷ (hours seconds, "h") ∷ (minutes seconds, "m") ∷ []
    else (if ltb 0 (hours seconds)
        then (hours seconds, "h") ∷ (minutes seconds, "m") ∷ (secs seconds, "s") ∷ []
        else (minutes seconds, "m") ∷ (secs seconds, "s") ∷ [])

-- `children.length`
unfoldable pub children : List Node → ℕ
children [] = 0
children (element text ∷ nodes) = suc (children nodes)
children (white ∷ nodes) = children nodes

abbrev pub drop_child : List Node → List Node
drop_child [] = []
drop_child (node ∷ nodes) = nodes

-- The entries are counted without the text between the tags; the first child may be such a text.
unfoldable pub append_node : String → List Node → List Node
unfolding children
append_node text nodes =
    let nodes' = nodes ++ element text ∷ [] in
    if ltb 50 (children nodes') then drop_child nodes' else nodes'

unfoldable pub tell : String → Panel → Panel
tell text p = record p { alerts = p.alerts ++ text ∷ [] }

unfoldable pub add_event : String → Panel → Panel
unfolding append_node
add_event text p = record p { event_log = append_node text p.event_log }
