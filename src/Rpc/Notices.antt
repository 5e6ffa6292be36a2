-- ===== src/Rpc/Notices.antt =====
-- `handleMessage`: what becomes of a message that the server sends by itself.
use ocpp_server.Base.{String, ◌≡◌, refl, ap, ◌∙◌, false, some, ◌==◌}
use ocpp_server.Js.{Value, str, truthy, is_string, returned, Eff, Done, Host, prop}
use ocpp_server.Rpc.State.{Client, nat_key, string_key}
use ocpp_server.Rpc.Emitter.{emit}
use ocpp_server.Rpc.Core.{on_message, emit_value, notify, route}
use ocpp_server.Rpc.Answers.{handle_message_lem}

module _ {K H P : Type 0} (host : Host) (run : H → Value → Eff (Client K H P) Done)
    (method : String) (msg id params : Value) (whole : is_string msg ≡ false)
    (numbered : prop host msg "id" ≡ returned id) (nameless : truthy id ≡ false)
    (has_method : prop host msg "method" ≡ returned (str method)) (named : (method == "") ≡ false)
    (has_params : prop host msg "params" ≡ returned params) where
  -- A message with no number and with a method is given to the handlers of the method.
  notify-emit : (c : Client K H P) → (route host run msg c).1 ≡ emit run method params c
  unfolding route notify emit_value
  notify-emit c = rw (numbered, nameless, has_method, named, has_params) refl

  pub on_message-notice :
      (text : String) (c : Client K H P)
      → host.parse text ≡ some msg
      → on_message host run text c ≡ emit run method params c
  unfolding on_message
  on_message-notice text c parsed =
      rw (parsed, on_message)
        (ap (λ f. (f c).1) (handle_message_lem host run msg whole) ∙ notify-emit c)
