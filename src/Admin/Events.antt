-- ===== src/Admin/Events.antt =====
-- `AdminPanel`: its start, its buttons, the answers, and one event with the reactions that it brings.
use ocpp_server.Base.{
  String, Bool, true, false, Option, none, some, List, [], ◌∷◌, ◌++◌, map, if◌then◌else◌, ◌<>◌,
  length,
}
use ocpp_server.Js.{
  nat, Value, undefined, null, str, obj, end, field, type_error, fault, Outcome, returned, thrown,
  Eff, Done, modify, Host, message, text_of,
}
use ocpp_server.Rpc.State.{Settled, resolved, rejected, nat_key, string_key}
use ocpp_server.Rpc.Core.{on_message, on_open, on_error, drain}
use ocpp_server.Rpc.Emitter.{on}
use ocpp_server.Rpc.Monitor.{call, connect, default_url, on_close, on_timer}
use ocpp_server.Monitoring.Values.{entries_of, indexed}
use ocpp_server.Admin.State.{
  AdminPage, Asked, system_info, reboot, setting, Listener, at_connected, at_disconnected,
  AdminWorld, on_page, add_log, tell, ask, update_connection_status,
}

module _ (host : Host) where
  -- `Object.entries(v)`
  unfoldable pub object_entries : Value → Outcome (List (String × Value))
  unfolding entries_of indexed
  object_entries undefined = thrown (fault type_error)
  object_entries null = thrown (fault type_error)
  object_entries (str s) =
      returned (indexed (λ i. host.number_text (nat i)) 0 (map str (host.characters s)))
  object_entries v = returned (entries_of host v)

  abbrev pub item : String × Value → String × String
  item (key, v) = (key, text_of host v)

  -- The items of the page that `displaySystemInfo` writes.
  unfoldable pub display_system_info : List (String × Value) → AdminPage → AdminPage
  display_system_info entries p = record p { items = some (map item entries) }

  -- `loadSystemInfo`, `setValue` and `rebootSystem` after their `await`.
  unfoldable pub answered : Asked → Settled → AdminPage → AdminPage
  unfolding object_entries display_system_info add_log tell
  answered system_info (resolved values) p = elim (object_entries values) [
    | thrown e ↦ record p { console = p.console ++ "Failed to load system info:" ∷ [] }
    | returned entries ↦ display_system_info entries p
  ]
  answered system_info (rejected e) p = record p {
    console = p.console ++ "Failed to load system info:" ∷ [];
  }
  answered (setting key value) (resolved result) p =
      add_log ("Configuration updated: " <> key <> " = " <> value) p
  answered (setting key value) (rejected e) p = tell ("Error setting value: " <> message host e) p
  answered reboot (resolved result) p = add_log "System reboot initiated" p
  answered reboot (rejected e) p = tell ("Error rebooting system: " <> message host e) p

  abbrev pub resumed : Asked → Settled → Eff AdminWorld Done
  resumed k r = modify (on_page (answered k r))

module _ (sends : Bool) where
  unfoldable pub load_system_info : AdminWorld → AdminWorld
  load_system_info = call sends "getValues" (obj end) system_info

  unfoldable pub set_value : String → String → AdminWorld → AdminWorld
  set_value key value =
      call sends "setValue" (obj (field "key" (str key) (field "value" (str value) end)))
        (setting key value)

  -- `reply` is what `prompt` returns: none when it is cancelled.
  unfoldable pub edit_value : String → String → (reply : Option String) → AdminWorld → AdminWorld
  unfolding set_value ask
  edit_value key current_value reply w =
      let w' = on_page (ask ("Edit " <> key <> ":") (some current_value)) w in
      elim reply [ none ↦ w' | some new_value ↦ set_value key new_value w' ]

  unfoldable pub reboot_system : (confirmed : Bool) → AdminWorld → AdminWorld
  unfolding ask
  reboot_system confirmed w =
      let w' = on_page (ask "Are you sure you want to reboot the system?" none) w in
      if confirmed then call sends "resetSystem" (obj end) reboot w' else w'

  -- The handlers of `init`.
  unfoldable pub listen : Listener → Value → Eff AdminWorld Done
  unfolding update_connection_status load_system_info
  listen at_connected _ = modify (λ w. load_system_info (on_page (update_connection_status true) w))
  listen at_disconnected _ = modify (on_page (update_connection_status false))

unfoldable pub init_admin : (opens : Bool) → AdminWorld → AdminWorld
unfolding on
init_admin opens w =
    connect opens default_url (on "disconnected" at_disconnected (on "connected" at_connected w))

-- An edit names the key and the text that the button passes, and the reply.
pub data AdminEvent : Type 0 where
  press_edit : (key current_value : String) (reply : Option String) → AdminEvent
  press_reboot : (confirmed : Bool) → AdminEvent
  press_clear press_export : AdminEvent
  reconnect socket_open socket_close : AdminEvent
  socket_error : Value → AdminEvent
  socket_message : String → AdminEvent

module _ (host : Host) (sends opens : Bool) where
  unfoldable pub handle_admin : AdminEvent → AdminWorld → AdminWorld
  unfolding edit_value reboot_system add_log listen
  handle_admin (press_edit key current_value reply) = edit_value sends key current_value reply
  handle_admin (press_reboot confirmed) = reboot_system sends confirmed
  handle_admin press_clear = on_page (add_log "Logs cleared")
  handle_admin press_export = on_page (add_log "Configuration exported")
  handle_admin reconnect = on_timer opens
  handle_admin socket_open = on_open (listen sends)
  handle_admin socket_close = on_close (listen sends)
  handle_admin (socket_error e) = on_error (listen sends) e
  handle_admin (socket_message text) = on_message host (listen sends) text

  -- One event: its handler, then the reactions of what it settled. A reaction settles nothing.
  unfoldable pub step_admin : AdminEvent → AdminWorld → AdminWorld
  unfolding handle_admin
  step_admin event w =
      let w' = handle_admin event w in drain (resumed host) (length w'.reactions) w'
