-- ===== src/Rpc/Web.antt =====
-- web/js/rpc-client.js: what it does its own way.
pub mod Calls
pub mod History
use ocpp_server.Base.{ℕ, suc, String, Bool, false, some, ◌∷◌, if◌then◌else◌}
use ocpp_server.Base.Dict
use ocpp_server.Js.{Value, undefined, error, Eff, Done, try_catch, modify}
use ocpp_server.Rpc.State.{nat_key, string_key, Client, rejected, settle}
use ocpp_server.Rpc.Emitter.{emit}
use ocpp_server.Rpc.Core.{send, enter, next_request}

module _ {K H P : Type 0} where
  -- The constructor of the socket may throw, which is written to the console.
  unfoldable pub connect : (opens : Bool) → Client K H P → Client K H P
  connect opens c =
      if opens
      then record c {
        ws = some c.sockets;
        sockets = suc c.sockets;
        addresses = c.url ∷ c.addresses;
      }
      else c

  -- `send` after the request was entered; a failure takes the entry out again.
  unfoldable pub transmit : (sends : Bool) → ℕ → String → Value → K → Eff (Client K H P) Done
  unfolding send
  transmit sends id method params k = try_catch (send sends (next_request id method params)) (λ e.
      modify λ c.
        settle k (rejected e) (record c { pending_requests = Dict.delete id c.pending_requests }))

  -- `k` names what the caller goes on with when the promise is settled.
  unfoldable pub call : (sends : Bool) → String → Value → K → Client K H P → Client K H P
  unfolding enter transmit
  call sends method params k c =
      if c.connected
      then (transmit sends (suc c.request_id) method params k (enter k c)).1
      else settle k (rejected (error "Not connected to server")) c

  -- `handleReconnect` is empty here: its body is commented out.
  unfoldable pub handle_reconnect : Client K H P → Client K H P
  handle_reconnect c = c

  unfoldable pub on_close : (H → Value → Eff (Client K H P) Done) → Client K H P → Client K H P
  unfolding handle_reconnect
  on_close run c =
      handle_reconnect (emit run "disconnected" undefined (record c { connected = false }))
