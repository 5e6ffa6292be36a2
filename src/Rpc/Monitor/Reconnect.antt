-- ===== src/Rpc/Monitor/Reconnect.antt =====
-- web/client/js/rpc-client.js: the reconnection by timers, and the calls that a socket refuses.
use ocpp_server.Base.{
  ℕ, zero, suc, ◌+◌, ◌≤◌, String, ◌≡◌, refl, ap, ◌∙◌, true, false, some, List, [], ◌∷◌, ◌++◌, arith,
  ltb, if◌then◌else◌, length, length-append,
}
use ocpp_server.Base.Dict.{Key}
use ocpp_server.Base.Dict
use ocpp_server.Js.{Value, undefined, invalid_state, fault, Eff, Done}
use Prim.Native.Nat.{min}
use ocpp_server.Rpc.State.{Client, rejected, nat_key, string_key}
use ocpp_server.Rpc.Emitter.{emit}
use ocpp_server.Rpc.Core.{disconnect}
use ocpp_server.Rpc.Pending.{get_above}
use ocpp_server.Rpc.Invariant.{IsValid, IsStable, emit-Inv}
use ocpp_server.Rpc.Monitor.{default_url, call, handle_reconnect, on_close, on_timer}

-- The fields that reconnection reads and writes.
pub record Retry : Type 0 where
  pub attempts : ℕ
  pub limit : ℕ
  pub interval : ℕ
  pub timers : List ℕ

abbrev lose : Retry → Retry
lose r =
    if ltb r.attempts r.limit
    then record r { attempts = suc r.attempts; timers = r.timers ++ r.interval ∷ [] }
    else r

abbrev lose_times : ℕ → Retry → Retry
lose_times zero r = r
lose_times (suc n) r = lose_times n (lose r)

lose_times_bounded :
    (n : ℕ) (r : Retry)
    → r.attempts ≤ r.limit
    → ((lose_times n r).attempts ≡ min (r.attempts + n) r.limit)
      × (length (lose_times n r).timers + r.attempts ≡ length r.timers + (lose_times n r).attempts)
lose_times_bounded zero r le = omega arith
lose_times_bounded (suc n) r le =
    ground (arith, lose_times_bounded n (lose r), length-append r.timers (r.interval ∷ []))

module _ {K H P : Type 0} where
  abbrev pub retry : Client K H P → Retry
  retry c = record {
    attempts = c.reconnect_attempts;
    limit = c.max_reconnect_attempts;
    interval = c.reconnect_interval;
    timers = c.timers;
  }

  -- The handlers of events leave the reconnection alone.
  abbrev pub IsQuiet : (H → Value → Eff (Client K H P) Done) → Type 0
  IsQuiet run = (h : H) (v : Value) (c : Client K H P) → retry (run h v c).1 ≡ retry c

  abbrev pub close_times : (H → Value → Eff (Client K H P) Done) → ℕ → Client K H P → Client K H P
  close_times run zero c = c
  close_times run (suc n) c = close_times run n (on_close run c)

  module _ (run : H → Value → Eff (Client K H P) Done) (quiet : IsQuiet run) where
    emit-retry :
        (event : String) (v : Value) (c : Client K H P) → retry (emit run event v c) ≡ retry c
    emit-retry event v c =
        emit-Inv (λ d. retry d ≡ retry c) same_retry run (λ h w d i. quiet h w d ∙ i) event v c refl
      where
        same_retry : IsStable (λ d. retry d ≡ retry c)
        same_retry = record { settles = λ k r d i. i; answers = λ n d i. i; drains = λ rs d i. i }

    handle_reconnect-retry : (c : Client K H P) → retry (handle_reconnect run c) ≡ lose (retry c)
    unfolding handle_reconnect
    handle_reconnect-retry c = ground (arith, emit-retry "reconnect_failed" undefined c)

    -- What the loss of a connection does to the four fields.
    pub on_close-retry : (c : Client K H P) → retry (on_close run c) ≡ lose (retry c)
    unfolding on_close
    on_close-retry c =
        handle_reconnect-retry (emit run "disconnected" undefined (record c { connected = false }))
        ∙ ap lose (emit-retry "disconnected" undefined (record c { connected = false }))

    close_times-retry :
        (n : ℕ) (c : Client K H P) → retry (close_times run n c) ≡ lose_times n (retry c)
    close_times-retry zero c = refl
    close_times-retry (suc n) c =
        close_times-retry n (on_close run c) ∙ ap (lose_times n) (on_close-retry c)

    -- However often the connection is lost with none made in between, the attempts stop at the
    -- limit, and as many timers were set as attempts were counted.
    pub close_times_bounded :
        (n : ℕ) (c : Client K H P)
        → c.reconnect_attempts ≤ c.max_reconnect_attempts
        → let d = close_times run n c in
          (d.reconnect_attempts ≡ min (c.reconnect_attempts + n) c.max_reconnect_attempts)
          × (length d.timers + c.reconnect_attempts ≡ length c.timers + d.reconnect_attempts)
    close_times_bounded n c le =
        rw
          (ap (λ r. r.attempts) (close_times-retry n c), ap (λ r. r.timers) (close_times-retry n c))
          (lose_times_bounded n (retry c) le)

    -- After `disconnect` the loss of the connection sets no timer.
    on_close-disconnect : (c : Client K H P) → (on_close run (disconnect c)).timers ≡ c.timers
    unfolding disconnect
    on_close-disconnect c = ground (arith, ap (λ r. r.timers) (on_close-retry (disconnect c)))

    -- If the handlers of events leave the reconnection alone, the loss of the connection after
    -- `disconnect` sets no timer; but a timer that ends after it makes a new socket, if one can be
    -- made, and opens it at the default address.
    pub disconnect_lem :
        (c : Client K H P)
        → let d = on_timer true (disconnect c) in
          ((on_close run (disconnect c)).timers ≡ c.timers)
          × (d.ws ≡ some c.sockets)
          × (d.addresses ≡ default_url ∷ c.addresses)
    unfolding on_timer disconnect
    disconnect_lem c = (on_close-disconnect c, ground arith, ground arith)

  -- A call whose socket refuses it: the promise is rejected, and yet its entry stays in the table.
  pub call_leaks :
      (method : String) (params : Value) (k : K) (c : Client K H P)
      → IsValid c
      → c.connected ≡ true
      → call false method params k c ≡ record c {
        request_id = suc c.request_id;
        pending_requests = c.pending_requests ++ (suc c.request_id, k) ∷ [];
        reactions = c.reactions ++ (k, rejected (fault invalid_state)) ∷ [];
      }
  unfolding call
  call_leaks method params k c v on = ground (
    arith,
    Dict.set-fresh (suc c.request_id) k c.pending_requests
        (get_above 0 c.request_id (suc c.request_id) c.pending_requests v.ids (omega arith)),
    v.socket on,
  )
