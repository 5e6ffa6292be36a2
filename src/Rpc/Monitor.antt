-- ===== src/Rpc/Monitor.antt =====
-- web/client/js/rpc-client.js: what it does its own way.
pub mod Reconnect
use ocpp_server.Base.{[], ℕ, suc, String, Bool, false, some, List, ◌∷◌, ◌++◌, ltb, if◌then◌else◌}
use ocpp_server.Base.Dict
use ocpp_server.Js.{Value, undefined, error, Eff, Done, try_catch, modify}
use ocpp_server.Rpc.State.{nat_key, string_key, Client, rejected, settle}
use ocpp_server.Rpc.Emitter.{emit}
use ocpp_server.Rpc.Core.{send, enter, next_request}

abbrev pub default_url : String
default_url = "ws://localhost:8080"

abbrev pub drop_first : List ℕ → List ℕ
drop_first [] = []
drop_first (t ∷ ts) = ts

module _ {K H P : Type 0} where
  unfoldable pub connect : (opens : Bool) (url : String) → Client K H P → Client K H P
  connect opens url c =
      if opens
      then record c { ws = some c.sockets; sockets = suc c.sockets; addresses = url ∷ c.addresses }
      else c

  -- What the executor of a promise throws rejects the promise; the entry stays where it is.
  unfoldable pub transmit : (sends : Bool) → ℕ → String → Value → K → Eff (Client K H P) Done
  unfolding send
  transmit sends id method params k =
      try_catch (send sends (next_request id method params)) (λ e. modify (settle k (rejected e)))

  unfoldable pub call : (sends : Bool) → String → Value → K → Client K H P → Client K H P
  unfolding enter transmit
  call sends method params k c =
      if c.connected
      then (transmit sends (suc c.request_id) method params k (enter k c)).1
      else settle k (rejected (error "Not connected to server")) c

  module _ (run : H → Value → Eff (Client K H P) Done) where
    unfoldable pub handle_reconnect : Client K H P → Client K H P
    handle_reconnect c =
        if ltb c.reconnect_attempts c.max_reconnect_attempts
        then record c {
          reconnect_attempts = suc c.reconnect_attempts;
          timers = c.timers ++ c.reconnect_interval ∷ [];
        }
        else emit run "reconnect_failed" undefined c

    unfoldable pub on_close : Client K H P → Client K H P
    unfolding handle_reconnect
    on_close c =
        handle_reconnect (emit run "disconnected" undefined (record c { connected = false }))

  -- The oldest timer fires. All run for the same time, so they fire in the order they were set.
  unfoldable pub on_timer : (opens : Bool) → Client K H P → Client K H P
  unfolding connect
  on_timer opens c = connect opens default_url (record c { timers = drop_first c.timers })
