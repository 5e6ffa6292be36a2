-- ===== src/Tests/Page.antt =====
-- The page of the central system.
use ocpp_server.Base.{◌≡◌, refl, ◌≢◌, true, none, some, List, [], ◌∷◌, ◌++◌, map, arith}
use ocpp_server.Base.Dict.{Key}
use ocpp_server.Base.Dict
use ocpp_server.Js.{nat, Value, undefined, null, num, str, obj, empty, cons, end, field}
use ocpp_server.Rpc.State.{resolved, nat_key, string_key, new_client}
use ocpp_server.Central.State.{Entry, clear_cache, trigger_meter_values, station_change, World}
use ocpp_server.Central.View.{log_error, blank, station_choice}
use ocpp_server.Central.Selection.{parse_response, stations_list_loaded, handle_status_notification}
use ocpp_server.Rpc.Core.{drain}
use ocpp_server.Central.Events.{
  init, new_page, press_connect, socket_open, socket_message, start, handle, step,
}
use ocpp_server.Tests.Data.{answer_1, answer_2, browser, new_ui, working}
use ocpp_server.Rpc.Web.{connect}
use ocpp_server.Rpc.Invariant.{IsValid}
use ocpp_server.Rpc.Web.Calls.{IsAccounted}
use ocpp_server.Rpc.Answers.{outstanding, forget}
use ocpp_server.Central.Closed.{Run, here, next}
use ocpp_server.Central.Accounts.{Run-IsAccounted}
use ocpp_server.Central.Logs.{Run-Extends}
use ocpp_server.Central.Reactions.{step_lem, registered}
use ocpp_server.Central.Guards.{start_refused, Asks, start-Asks, trigger_meter_values_nameless}
use ocpp_server.Central.Choice.{Chosen, answer_chooses}
use ocpp_server.Central.Listing.{names_listed}
use ocpp_server.Central.Once.{answer_once}
use ocpp_server.Central.Notices.{status_notification_connector, connection_shown}

abbrev loaded : World
loaded = init browser true (new_client (new_page new_ui))

abbrev socketed : World
socketed = step browser working press_connect loaded

socketed_there : socketed.ws ≢ none
unfolding init step new_client new_page handle connect drain
socketed_there e = cc

abbrev opened : World
opened = step browser working socket_open socketed

opened-Run : Run browser loaded opened
opened-Run = next working socket_open (next working press_connect here tt) socketed_there

Run-IsAccounted_example : IsAccounted opened
Run-IsAccounted_example = Run-IsAccounted browser true new_ui opened opened-Run

Run-Extends_example : (more : List Entry) × (opened.page.ui.log ≡ loaded.page.ui.log ++ more)
Run-Extends_example = Run-Extends browser loaded opened opened-Run

step_lem_example : opened.reactions ≡ []
step_lem_example = (step_lem browser working socket_open socketed).1

-- A connected page with the station B chosen, whose choice of the station A waits under number 2.
abbrev waiting : World
waiting = record (new_client (new_page new_ui)) {
  ws = some 0;
  sockets = 1;
  connected = true;
  request_id = 2;
  event_handlers = registered;
  pending_requests = (2, station_change "A") ∷ [];
  page = record (new_page new_ui) { current_station = some "B" };
}

waiting-IsValid : IsValid waiting
unfolding new_client
waiting-IsValid = record { ids = omega arith; sent_ids = omega arith; socket = λ _ e. cc }

start_refused_example :
    start browser true clear_cache "" loaded ≡ log_error "Сначала выберите станцию" loaded
unfolding init new_client new_page
start_refused_example = start_refused browser true clear_cache "" loaded refl

start-Asks_example : Asks browser waiting (start browser true clear_cache "" waiting) (str "B")
unfolding new_client new_page
start-Asks_example = start-Asks browser waiting waiting-IsValid refl refl clear_cache "" tt

trigger_meter_values_nameless_example :
    Asks browser waiting (start browser true (trigger_meter_values null) "" waiting) undefined
unfolding new_client new_page
trigger_meter_values_nameless_example =
    trigger_meter_values_nameless browser waiting waiting-IsValid refl refl null ""

answer_chooses_example :
    let v = step browser working (socket_message "answer 2") waiting in
    Chosen (some "A") none v × (outstanding v ≡ forget 2 (outstanding waiting))
unfolding new_client new_page Dict.get
answer_chooses_example =
    answer_chooses browser waiting waiting-IsValid refl 2 "A" "answer 2" answer_2 undefined refl
      refl refl refl refl working refl

names_listed_example :
    (stations_list_loaded browser (resolved answer_1) waiting).1.page.ui.station_options
    ≡ blank ∷ map (station_choice browser) (str "A" ∷ str "B" ∷ [])
unfolding parse_response
names_listed_example =
    (names_listed browser answer_1 (cons (str "A") (cons (str "B") empty)) waiting refl
      (refl, (refl, tt))).0

abbrev notice : Value
notice = obj (
    field "station_id" (str "B") (
      field "connector_id" (num (nat 1))
        (field "status" (str "ok") (field "connectorStatus" (str "charge") end))))

status_notification_connector_example :
    (handle_status_notification browser notice waiting).1.page.ui.connector_status
    ≡ waiting.page.ui.connector_status
status_notification_connector_example = status_notification_connector browser notice waiting refl

connection_shown_example :
    (handle browser working socket_open waiting).page.ui.connect_disabled ≡ true
unfolding new_client
connection_shown_example = (connection_shown browser working waiting refl).0.1

-- The answer has come, and the station is chosen.
abbrev settled : World
settled = step browser working (socket_message "answer 2") waiting

answer_once_example :
    (Dict.get 2 settled.pending_requests ≡ none)
    × (handle browser working (socket_message "answer 2") settled ≡ settled)
unfolding new_client new_page Dict.get
answer_once_example =
    answer_once browser working waiting settled 2 (station_change "A") "answer 2" answer_2 undefined
      waiting-IsValid refl refl refl refl refl here working "answer 2" answer_2 undefined refl refl
      refl refl refl
