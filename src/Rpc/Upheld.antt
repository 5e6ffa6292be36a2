-- ===== src/Rpc/Upheld.antt =====
-- web/client/js/rpc-client.js: what its operations keep, and that they keep a client valid.
use ocpp_server.Base.{
  ℕ, suc, String, ◌≢◌, inl, inr, Bool, true, false, none, List, [], ◌∷◌, ◌++◌, arith, ltb,
  Bool-cases,
}
use ocpp_server.Js.{Value, undefined, Eff, Done}
use ocpp_server.Rpc.State.{Client, nat_key, string_key}
use ocpp_server.Rpc.Core.{on_open, next_request}
use ocpp_server.Rpc.Emitter.{emit}
use ocpp_server.Rpc.Pending.{Rising-append, RisingSent-append, RisingSent-mono}
use ocpp_server.Rpc.Invariant.{IsValid, IsValid-stable, IsStable, emit-Inv}
use ocpp_server.Rpc.Agreement.{monitor_sent, monitor_offline}
use ocpp_server.Rpc.Monitor.Reconnect.{call_leaks}
use ocpp_server.Rpc.Monitor.{
  call, connect, handle_reconnect, on_close, on_timer, default_url, drop_first,
}

-- `Inv` survives the operations of the client that send nothing and register no handler. A socket
-- opens only where one was made.
pub record IsSteady {K H P : Type 0} (Inv : Client K H P → Type 0) : Type 0 where
  pub stable : IsStable Inv
  pub pages : (p : P) (c : Client K H P) → Inv c → Inv (record c { page = p })
  pub connects :
      (opens : Bool) (url : String) (c : Client K H P) → Inv c → Inv (connect opens url c)
  pub waits :
      (attempts : ℕ) (ts : List ℕ) (c : Client K H P)
      → Inv c
      → Inv (record c { reconnect_attempts = attempts; timers = ts })
  pub opened :
      (c : Client K H P)
      → c.ws ≢ none
      → Inv c
      → Inv (record c { connected = true; reconnect_attempts = 0 })
  pub closed : (c : Client K H P) → Inv c → Inv (record c { connected = false })

-- And any request.
pub record IsUpheld {K H P : Type 0} (Inv : Client K H P → Type 0) : Type 0 where
  pub steady : IsSteady Inv
  pub calls :
      (sends : Bool) (method : String) (params : Value) (k : K) (c : Client K H P)
      → Inv c
      → Inv (call sends method params k c)

module _ {K H P : Type 0} (Inv : Client K H P → Type 0) (steady : IsSteady Inv)
    (run : H → Value → Eff (Client K H P) Done)
    (keeps : (h : H) (v : Value) (c : Client K H P) → Inv c → Inv (run h v c).1) where
  pub emitted-Inv :
      (event : String) (v : Value) (c : Client K H P) → Inv c → Inv (emit run event v c)
  emitted-Inv = emit-Inv Inv steady.stable run keeps

  pub on_open-Inv : (c : Client K H P) → c.ws ≢ none → Inv c → Inv (on_open run c)
  unfolding on_open
  on_open-Inv c there i = emitted-Inv "connected" undefined _ (steady.opened c there i)

  handle_reconnect-Inv : (c : Client K H P) → Inv c → Inv (handle_reconnect run c)
  unfolding handle_reconnect
  handle_reconnect-Inv c i = elim (Bool-cases (ltb c.reconnect_attempts c.max_reconnect_attempts)) [
    | inl again ↦ rw again (steady.waits _ _ c i)
    | inr spent ↦ rw spent (emitted-Inv "reconnect_failed" undefined c i)
  ]

  pub on_close-Inv : (c : Client K H P) → Inv c → Inv (on_close run c)
  unfolding on_close
  on_close-Inv c i =
      handle_reconnect-Inv (emit run "disconnected" undefined (record c { connected = false }))
        (emitted-Inv "disconnected" undefined (record c { connected = false }) (steady.closed c i))

  pub on_timer-Inv : (opens : Bool) (c : Client K H P) → Inv c → Inv (on_timer opens c)
  unfolding on_timer
  on_timer-Inv opens c i =
      steady.connects opens default_url (record c { timers = drop_first c.timers })
        (steady.waits c.reconnect_attempts (drop_first c.timers) c i)

module _ {K H P : Type 0} where
  entered-IsValid :
      (k : K) (c : Client K H P)
      → IsValid c
      → IsValid (record c {
        request_id = suc c.request_id;
        pending_requests = c.pending_requests ++ (suc c.request_id, k) ∷ [];
      })
  entered-IsValid k c v = record {
    ids = Rising-append 0 c.request_id (suc c.request_id) k c.pending_requests v.ids (omega arith);
    sent_ids = RisingSent-mono 0 c.request_id (suc c.request_id) c.sent (omega arith) v.sent_ids;
    socket = v.socket;
  }

  pub sent-IsValid :
      (method : String) (params : Value) (k : K) (c : Client K H P)
      → IsValid c
      → IsValid (record c {
        request_id = suc c.request_id;
        pending_requests = c.pending_requests ++ (suc c.request_id, k) ∷ [];
        sent = c.sent ++ next_request (suc c.request_id) method params ∷ [];
      })
  sent-IsValid method params k c v = record {
    ids = (entered-IsValid k c v).ids;
    sent_ids =
        RisingSent-append 0 c.request_id c.sent (next_request (suc c.request_id) method params)
          v.sent_ids (omega arith);
    socket = v.socket;
  }

  call-IsValid :
      (sends : Bool) (method : String) (params : Value) (k : K) (c : Client K H P)
      → IsValid c
      → IsValid (call sends method params k c)
  call-IsValid sends method params k c v = elim (Bool-cases c.connected) [
    | inl on ↦ elim (Bool-cases sends) [
      | inl sent ↦ rw (sent, monitor_sent method params k c v on) (sent-IsValid method params k c v)
      | inr refused ↦
          rw (refused, call_leaks method params k c v on)
            (IsValid-stable.drains _ _ (entered-IsValid k c v))
    ]
    | inr off ↦ rw (monitor_offline sends method params k c off) (IsValid-stable.settles k _ c v)
  ]

  connect-IsValid :
      (opens : Bool) (url : String) (c : Client K H P) → IsValid c → IsValid (connect opens url c)
  unfolding connect
  connect-IsValid true url c v = record { ids = v.ids; sent_ids = v.sent_ids; socket = λ _ e. cc }
  connect-IsValid false url c v = v

  pub IsValid-IsSteady : IsSteady (IsValid {K = K} {H = H} {P = P})
  IsValid-IsSteady = record {
    stable = IsValid-stable;
    pages = λ p c v. record { ids = v.ids; sent_ids = v.sent_ids; socket = v.socket };
    connects = connect-IsValid;
    waits = λ n ts c v. record { ids = v.ids; sent_ids = v.sent_ids; socket = v.socket };
    opened = λ c there v. record { ids = v.ids; sent_ids = v.sent_ids; socket = λ _. there };
    closed = λ c v. record { ids = v.ids; sent_ids = v.sent_ids; socket = λ e. cc };
  }

  pub IsValid-IsUpheld : IsUpheld (IsValid {K = K} {H = H} {P = P})
  IsValid-IsUpheld = record { steady = IsValid-IsSteady; calls = call-IsValid }
