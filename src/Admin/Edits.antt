-- ===== src/Admin/Edits.antt =====
-- An edit from the prompt to the line in the log.
use ocpp_server.Base.{
  ℕ, suc, String, ◌≡◌, refl, ap, ◌∙◌, Bool, true, false, some, List, [], ◌∷◌, ◌++◌, arith, ◌<>◌,
  length,
}
use ocpp_server.Base.Dict.{Key}
use ocpp_server.Base.Dict
use ocpp_server.Js.{nat, Value, num, str, obj, end, field, truthy, is_string, returned, Host, prop}
use ocpp_server.Rpc.State.{resolved, nat_key}
use ocpp_server.Rpc.Core.{next_request, drain}
use ocpp_server.Rpc.Pending.{get-append_last, delete-append_last}
use ocpp_server.Rpc.Invariant.{IsValid}
use ocpp_server.Rpc.Answers.{verdict, on_message-answer}
use ocpp_server.Rpc.Agreement.{monitor_sent}
use ocpp_server.Rpc.Draining.{drain-quiet, drain_one}
use ocpp_server.Admin.State.{AdminPage, Asked, setting, AdminWorld, on_page, ask, add_log}
use ocpp_server.Rpc.Upheld.{sent-IsValid}
use ocpp_server.Admin.History.{Run, loaded, Run-IsSettled}
use ocpp_server.Admin.Events.{
  answered, resumed, set_value, edit_value, listen, press_edit, socket_message, handle_admin,
  step_admin,
}

abbrev assignment : String → String → Value
assignment key value = obj (field "key" (str key) (field "value" (str value) end))

module _ (host : Host) (page : AdminPage) (once opens : Bool) {w : AdminWorld}
    (r : Run host (loaded host page once) w) (on : w.connected ≡ true)
    (key current_value new_value : String) where
  valid : IsValid w
  valid = (Run-IsSettled host page once r).0

  quiet : w.reactions ≡ []
  quiet = (Run-IsSettled host page once r).1

  asking : AdminWorld
  asking = on_page (ask ("Edit " <> key <> ":") (some current_value)) w

  asking-IsValid : IsValid asking
  unfolding asking
  asking-IsValid = record { ids = valid.ids; sent_ids = valid.sent_ids; socket = valid.socket }

  -- After the prompt is confirmed.
  waiting : AdminWorld
  waiting = record asking {
    request_id = suc w.request_id;
    pending_requests = w.pending_requests ++ (suc w.request_id, setting key new_value) ∷ [];
    sent = w.sent ++ next_request (suc w.request_id) "setValue" (assignment key new_value) ∷ [];
  }

  waiting-IsValid : IsValid waiting
  unfolding waiting asking
  waiting-IsValid =
      sent-IsValid "setValue" (assignment key new_value) (setting key new_value) asking
        asking-IsValid

  sends_edit :
      step_admin host true opens (press_edit key current_value (some new_value)) w ≡ waiting
  unfolding step_admin handle_admin edit_value set_value waiting asking
  sends_edit =
      let sent =
        monitor_sent "setValue" (assignment key new_value) (setting key new_value) asking
          asking-IsValid on in
      ap (λ v. drain (resumed host) (length v.reactions) v) sent
      ∙ drain-quiet (resumed host) (length w.reactions) waiting quiet

  waits : Dict.get (suc w.request_id) waiting.pending_requests ≡ some (setting key new_value)
  unfolding waiting
  waits =
      get-append_last 0 w.request_id (suc w.request_id) (setting key new_value) w.pending_requests
        valid.ids (omega arith)

  removed : Dict.delete (suc w.request_id) waiting.pending_requests ≡ w.pending_requests
  unfolding waiting
  removed =
      delete-append_last 0 w.request_id (suc w.request_id) (setting key new_value)
        w.pending_requests valid.ids (omega arith)

  module _ (text : String) (msg e : Value) (parsed : host.parse text ≡ some msg)
      (whole : is_string msg ≡ false)
      (numbered : prop host msg "id" ≡ returned (num (nat (suc w.request_id))))
      (sound : prop host msg "error" ≡ returned e) (fine : truthy e ≡ false) where
    -- `waiting` when its request waits no more.
    settled : AdminWorld
    settled = record waiting {
      pending_requests = Dict.delete (suc w.request_id) waiting.pending_requests;
      reactions = [];
    }

    runs :
        drain
          (resumed host)
          1
          (record settled { reactions = (setting key new_value, verdict host msg e) ∷ [] })
        ≡ (resumed host (setting key new_value) (resolved msg) settled).1
    unfolding settled answered
    runs = rw fine (drain_one (resumed host) 0 (setting key new_value) (resolved msg) settled refl)

    -- Whatever happened to the page since it was loaded, when the client is connected, the user confirms
    -- an edit, the socket takes the request, and the next event is its answer with no error: one request
    -- with the key and the new text goes out under the next number, its answer writes them to the log,
    -- and the requests that waited before wait as they did.
    pub edit_answered :
        step_admin host true opens
          (socket_message text)
          (step_admin host true opens (press_edit key current_value (some new_value)) w)
        ≡ record w {
          request_id = suc w.request_id;
          sent =
              w.sent ++ next_request (suc w.request_id) "setValue" (assignment key new_value) ∷ [];
          reactions = [];
          page =
              add_log
                ("Configuration updated: " <> key <> " = " <> new_value)
                (ask ("Edit " <> key <> ":") (some current_value) w.page);
        }
    unfolding step_admin handle_admin waiting asking answered settled
    edit_answered =
        ap (step_admin host true opens (socket_message text)) sends_edit
        ∙ ap (λ v. drain (resumed host) (length v.reactions) v)
            (on_message-answer host (listen true) waiting waiting-IsValid quiet (suc w.request_id)
              (setting key new_value) text msg e parsed whole numbered sound (rw fine refl) waits)
        ∙ runs
        ∙ ap
            (λ (m : List (ℕ × Asked)).
              record (resumed host (setting key new_value) (resolved msg) settled).1 {
                pending_requests = m;
              })
            removed
