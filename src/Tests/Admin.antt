-- ===== src/Tests/Admin.antt =====
-- `AdminPanel` after its first answer: an edit that is confirmed and answered, and what was sent.
use ocpp_server.Base.{◌≤◌, ◌≡◌, refl, ap, true, false, none, some, [], ◌∷◌, ◌++◌, length}
use ocpp_server.Base.Dict.{Key}
use ocpp_server.Base.Dict
use ocpp_server.Js.{undefined, obj, end}
use ocpp_server.Rpc.State.{new_client, nat_key, string_key}
use ocpp_server.Rpc.Core.{
  next_request, drain, on_open, on_message, handle_message, route, answer, pending,
}
use ocpp_server.Rpc.Emitter.{on, emit}
use ocpp_server.Rpc.Monitor.{connect, call}
use ocpp_server.Admin.State.{AdminPage, AdminWorld, add_log, ask}
use ocpp_server.Admin.Events.{
  init_admin, press_edit, press_reboot, socket_open, socket_message, handle_admin, step_admin,
}
use ocpp_server.Admin.Reading.{writes}
use ocpp_server.Admin.History.{Run, here, next, loaded, Run-writes}
use ocpp_server.Admin.Edits.{edit_answered}
use ocpp_server.Tests.Data.{no_label, browser, answer_2}

abbrev page : AdminPage
page = record {
  connection_status = no_label;
  items = none;
  questions = [];
  console = [];
  alerts = [];
}

abbrev opened_page : AdminWorld
opened_page = step_admin browser true true socket_open (loaded browser page true)

-- With the socket open, the values are asked for.
asks_for_values : opened_page.sent ≡ next_request 1 "getValues" (obj end) ∷ []
unfolding step_admin init_admin new_client drain on_open emit Dict.has connect Dict.set Dict.get
    call
asks_for_values = refl

-- The values have come.
abbrev online : AdminWorld
online = step_admin browser true true (socket_message "answer 1") opened_page

opened_page-Run : Run browser (loaded browser page true) opened_page
unfolding init_admin connect on new_client
opened_page-Run = next true true socket_open here (λ e. cc)

online-Run : Run browser (loaded browser page true) online
online-Run = next true true (socket_message "answer 1") opened_page-Run tt

-- Then a reboot is declined and another one confirmed.
abbrev declined_page : AdminWorld
declined_page = step_admin browser true true (press_reboot false) online

abbrev rebooting_page : AdminWorld
rebooting_page = step_admin browser true true (press_reboot true) declined_page

Run-writes_example : length (writes rebooting_page.sent) ≤ 1
unfolding online-Run opened_page-Run
Run-writes_example =
    Run-writes browser page true
      (next true true (press_reboot true) (next true true (press_reboot false) online-Run tt) tt)

edit_answered_example :
    (step_admin browser true true
      (socket_message "answer 2")
      (step_admin browser true true (press_edit "maxPower" "50" (some "80")) online)).page.console
    ≡ online.page.console ++ "[Admin] Configuration updated: maxPower = 80" ∷ []
unfolding add_log ask step_admin handle_admin init_admin new_client drain on_open on_message
    handle_message route answer pending emit Dict.has connect Dict.set Dict.get Dict.delete call
edit_answered_example =
    ap (λ w. w.page.console)
      (edit_answered browser page true true online-Run refl "maxPower" "50" "80" "answer 2" answer_2
        undefined refl refl refl refl refl)
