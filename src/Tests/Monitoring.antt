-- ===== src/Tests/Monitoring.antt =====
-- `MonitoringSystem` on the page as it is loaded.
use ocpp_server.Base.{
  ℕ, zero, suc, ◌+◌, ◌≤◌, String, ◌≡◌, refl, true, false, some, List, [], ◌∷◌, arith,
}
use ocpp_server.Base.Dict.{Key}
use ocpp_server.Base.Dict
use ocpp_server.Js.{nat, Value, undefined, str, obj, end, error, returned, prop, text_of, read}
use ocpp_server.Rpc.State.{rejected, new_client, nat_key, string_key}
use ocpp_server.Monitoring.State.{
  Node, element, white, Panel, Shown, MonitorWorld, children, append_node, uptime_parts,
}
use ocpp_server.Monitoring.Values.{format_uptime}
use ocpp_server.Monitoring.Metrics.{metrics_loaded}
use ocpp_server.Monitoring.Events.{
  new_monitor, init_monitor, SocketState, socket_open, socket_message, step_event,
}
use ocpp_server.Monitoring.Mirror.{IsMirrored}
use mathlib.Core.Path.{subst}
use ocpp_server.Rpc.Params.{HasParams}
use ocpp_server.Rpc.Emitter.{on}
use ocpp_server.Rpc.Monitor.{connect}
use ocpp_server.Monitoring.Values.{case_of}
use ocpp_server.Monitoring.Kept.{HasKey}
use ocpp_server.Monitoring.History.{here, next, loaded, Run-IsMirrored}
use ocpp_server.Monitoring.Failures.{metrics_failed}
use ocpp_server.Monitoring.Journal.{whites, add_each, add_each_bounded}
use ocpp_server.Monitoring.Uptime.{IsExact, spaced, format_uptime_lem}
use ocpp_server.Monitoring.Commands.{refusal, send_command, send_command_lem}
use ocpp_server.Tests.Data.{no_label, browser, changed}

-- #eventLog as client/index.html brings it: an entry between two texts.
abbrev first_log : List Node
first_log = white ∷ element "System initialized" ∷ white ∷ []

abbrev blank_shown : Shown
blank_shown = record { text = ""; color = "" }

abbrev panel : Panel
panel = record {
  shown =
      ("currentPower", blank_shown)
      ∷ ("voltage", blank_shown)
      ∷ ("temperature", blank_shown)
      ∷ ("connectedClients", blank_shown)
      ∷ ("uptime", blank_shown)
      ∷ ("systemStatus", blank_shown)
      ∷ [];
  power_bar = some (record { width = ""; background = "" });
  start_charging = record { disabled = false; opacity = "1" };
  stop_charging = record { disabled = true; opacity = "0.6" };
  connection_status = no_label;
  event_log = first_log;
  alerts = [];
}

abbrev monitor : String → MonitorWorld
monitor state = new_client (record (new_monitor panel) { connection_state = state })

abbrev online : MonitorWorld
online = record (monitor "connected") { ws = some 0; connected = true }

abbrev working : SocketState
working = record { opens = true; sends = true; ready = true }

abbrev times : ℕ → List String
times zero = []
times (suc n) = "entry" ∷ times n

-- The log comes to 52 entries.
long_log : children (add_each (times 60) first_log) ≡ 52
unfolding children append_node
long_log = refl

add_each_bounded_example : children (add_each (times 60) first_log) ≤ 50 + whites first_log
unfolding whites
add_each_bounded_example = add_each_bounded (times 60) first_log (omega arith)

send_command_lem_example :
    (send_command true true "resetSystem" (obj end) online).page.panel.alerts ≡ []
unfolding new_client new_monitor refusal
send_command_lem_example = (send_command_lem true "resetSystem" (obj end) online refl).0

browser-IsExact : IsExact browser
browser-IsExact = record {
  floors = λ m n small some_part bounded. refl;
  remains = λ m n small some_part bounded. refl;
  exceeds = λ m n small. refl;
}

format_uptime_lem_example : format_uptime browser (nat 90061) ≡ spaced browser (uptime_parts 90061)
format_uptime_lem_example = (format_uptime_lem browser 90061 browser-IsExact (omega arith)).0

none-HasKey : HasKey browser undefined
none-HasKey key found = cc

changed-HasKey : HasKey browser (read browser changed "params")
unfolding case_of text_of
changed-HasKey key found = rw (← voltage found) refl
  where
    voltage : returned (str "voltage") ≡ returned key → str "voltage" ≡ key
    voltage e = cc

changed-HasParams : HasParams browser (HasKey browser) "changed"
changed-HasParams = record {
  outer = λ msg p good found. subst (HasKey browser) (same msg p good found) changed-HasKey;
  inner = λ within e. cc;
}
  where
    same :
        (msg p : Value)
        → some changed ≡ some msg
        → prop browser msg "params" ≡ returned p
        → read browser changed "params" ≡ p
    same msg p good found = cc

-- The socket has opened, and a notification has come.
abbrev notified : MonitorWorld
notified =
    step_event browser working (socket_message "changed")
      (step_event browser working socket_open (loaded browser true panel))

Run-IsMirrored_example : IsMirrored browser notified.page
unfolding init_monitor connect on new_client
Run-IsMirrored_example = Run-IsMirrored browser true panel (
    next working (socket_message "changed") (next working socket_open here (λ e. cc) tt) tt
      changed-HasParams)

metrics_failed_example :
    Dict.get "voltage"
      (metrics_loaded browser
        (rejected (error "Not connected to server"))
        (monitor "connected").page).values
    ≡ some (str "0.0")
unfolding Dict.get
metrics_failed_example =
    metrics_failed browser (error "Not connected to server") (monitor "connected").page "voltage"
