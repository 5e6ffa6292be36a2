-- ===== src/Admin/State.antt =====
-- `AdminPanel`: its page, and what its requests are for.
use ocpp_server.Base.{String, Bool, Option, List, [], ◌∷◌, ◌++◌, if◌then◌else◌, ◌<>◌}
use ocpp_server.Rpc.State.{Client}
use ocpp_server.Central.State.{Label}

-- What the methods write. An item is a key with the text of its value; there are none before the
-- first answer. A question is what `prompt` or `confirm` asked, with the text that `prompt` offered.
-- Of what goes to the console the first argument is kept.
pub record AdminPage : Type 0 where
  pub connection_status : Label
  pub items : Option (List (String × String))
  pub questions : List (String × Option String)
  pub console : List String
  pub alerts : List String

-- What goes on after an `await`.
pub data Asked : Type 0 where
  system_info reboot : Asked
  setting : (key value : String) → Asked

-- The handlers that `init` registers.
pub data Listener : Type 0 where
  at_connected at_disconnected : Listener

abbrev pub AdminWorld : Type 0
AdminWorld = Client Asked Listener AdminPage

abbrev pub on_page : (AdminPage → AdminPage) → AdminWorld → AdminWorld
on_page f w = record w { page = f w.page }

unfoldable pub add_log : String → AdminPage → AdminPage
add_log text p = record p { console = p.console ++ ("[Admin] " <> text) ∷ [] }

unfoldable pub tell : String → AdminPage → AdminPage
tell text p = record p { alerts = p.alerts ++ text ∷ [] }

unfoldable pub ask : String → Option String → AdminPage → AdminPage
ask question offered p = record p { questions = p.questions ++ (question, offered) ∷ [] }

unfoldable pub update_connection_status : (connected : Bool) → AdminPage → AdminPage
update_connection_status connected p = record p {
  connection_status =
      if connected
      then record { text = "Online"; class_name = "status-online" }
      else record { text = "Offline"; class_name = "status-offline" };
}
