-- ===== src/Rpc/Agreement.antt =====
-- Where the clients of web/js and of web/client/js differ in what a call does.
use ocpp_server.Base.{
  ℕ, suc, String, ◌≡◌, sym, ap, ◌∙◌, inl, inr, Bool, true, false, not, ◌&&◌, List, [], ◌∷◌, ◌++◌,
  arith, if◌then◌else◌, Bool-cases,
}
use ocpp_server.Base.Dict.{Key}
use ocpp_server.Base.Dict
use ocpp_server.Js.{Value, error}
use ocpp_server.Rpc.State.{Client, rejected, settle, nat_key}
use ocpp_server.Rpc.Core.{next_request}
use ocpp_server.Rpc.Invariant.{IsValid}
use ocpp_server.Rpc.Web
use ocpp_server.Rpc.Web.Calls.{unused, call_sent, call_refused, call_offline}
use ocpp_server.Rpc.Monitor
use ocpp_server.Rpc.Monitor.Reconnect.{call_leaks}

module _ {K H P : Type 0} where
  pub monitor_sent :
      (method : String) (params : Value) (k : K) (c : Client K H P)
      → IsValid c
      → c.connected ≡ true
      → Monitor.call true method params k c ≡ record c {
        request_id = suc c.request_id;
        pending_requests = c.pending_requests ++ (suc c.request_id, k) ∷ [];
        sent = c.sent ++ next_request (suc c.request_id) method params ∷ [];
      }
  unfolding Monitor.call
  monitor_sent method params k c v on =
      let entered = Dict.set-fresh (suc c.request_id) k c.pending_requests (unused c v) in
      ground (arith, entered, v.socket on)

  pub monitor_offline :
      (sends : Bool) (method : String) (params : Value) (k : K) (c : Client K H P)
      → c.connected ≡ false
      → Monitor.call sends method params k c
        ≡ settle k (rejected (error "Not connected to server")) c
  unfolding Monitor.call
  monitor_offline sends method params k c off = rw off

  -- The client with an earlier table, if `undone`.
  abbrev pub with_table : (undone : Bool) → List (ℕ × K) → Client K H P → Client K H P
  with_table undone m c = if undone then record c { pending_requests = m } else c

  kept :
      (undone : Bool) (m : List (ℕ × K)) (c : Client K H P)
      → undone ≡ false
      → with_table undone m c ≡ c
  kept undone m c e = rw e

  restored :
      (undone : Bool) (m : List (ℕ × K)) (c : Client K H P)
      → undone ≡ true
      → with_table undone m c ≡ record c { pending_requests = m }
  restored undone m c e = rw e

  -- On a valid client, the two calls do the same but in one case: where a connected client's socket
  -- refuses the request, that of web/js leaves the table as it was.
  pub calls_agree :
      (sends : Bool) (method : String) (params : Value) (k : K) (c : Client K H P)
      → IsValid c
      → Web.call sends method params k c
        ≡ with_table
            (c.connected && not sends)
            c.pending_requests
            (Monitor.call sends method params k c)
  calls_agree sends method params k c v = elim (Bool-cases c.connected) [
    | inl on ↦ online sends on
    | inr off ↦
        call_offline sends method params k c off
        ∙ sym (monitor_offline sends method params k c off)
        ∙ sym (kept (c.connected && not sends) c.pending_requests _ (ground arith))
  ]
    where
      online :
          (sends : Bool)
          → c.connected ≡ true
          → Web.call sends method params k c
            ≡ with_table
                (c.connected && not sends)
                c.pending_requests
                (Monitor.call sends method params k c)
      online true on =
          call_sent method params k c v on
          ∙ sym (monitor_sent method params k c v on)
          ∙ sym (kept (c.connected && not true) c.pending_requests _ (ground arith))
      online false on =
          call_refused method params k c v on
          ∙ ap (λ (d : Client K H P). record d { pending_requests = c.pending_requests })
              (sym (call_leaks method params k c v on))
          ∙ sym (restored (c.connected && not false) c.pending_requests _ (ground arith))
