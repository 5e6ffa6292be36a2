-- ===== src/Rpc/Web/History.antt =====
-- Everything that can happen to the client of web/js/rpc-client.js, as a step relation, and what
-- holds after any history.
use ocpp_server.Base.{ℕ, String, ◌≡◌, refl, ◌≢◌, inl, inr, Bool, true, false, none, Option-cases}
use ocpp_server.Js.{Value, undefined, Eff, Done, Keeps, Host}
use ocpp_server.Rpc.State.{Client, Settled, nat_key, string_key, set_url}
use ocpp_server.Rpc.Emitter.{on}
use ocpp_server.Rpc.Core.{on_message, on_open, on_error, disconnect, drain}
use ocpp_server.Rpc.Invariant.{emit-Inv, on_message-Inv, drain-Inv}
use ocpp_server.Rpc.Web.{connect, call, on_close}
use ocpp_server.Rpc.Web.Calls.{IsAccounted, IsAccounted-stable, call-IsAccounted}

module _ {K H P : Type 0} where
  -- The account does not read the other fields.
  pub resocket-IsAccounted :
      (c d : Client K H P)
      → d.request_id ≡ c.request_id
      → d.pending_requests ≡ c.pending_requests
      → d.sent ≡ c.sent
      → (d.connected ≡ true → d.ws ≢ none)
      → IsAccounted c
      → IsAccounted d
  resocket-IsAccounted c d same_id same_table same_sent socket a = record {
    valid = record {
      ids = rw (same_id, same_table) a.valid.ids;
      sent_ids = rw (same_id, same_sent) a.valid.sent_ids;
      socket = socket;
    };
    waits = rw (same_table, same_sent) a.waits;
  }

  pub connect-IsAccounted :
      (made : Bool) (c : Client K H P) → IsAccounted c → IsAccounted (connect made c)
  unfolding connect
  connect-IsAccounted true c a = resocket-IsAccounted c _ refl refl refl (λ _ e. cc) a
  connect-IsAccounted false c a = a

  pub disconnect-IsAccounted : (c : Client K H P) → IsAccounted c → IsAccounted (disconnect c)
  unfolding disconnect
  disconnect-IsAccounted c a = elim (Option-cases c.ws) [
    | inl missing ↦ rw (missing, disconnect) (resocket-IsAccounted c _ refl refl refl (λ e. cc) a)
    | inr (s, there) ↦ rw (there, disconnect) (resocket-IsAccounted c _ refl refl refl (λ e. cc) a)
  ]

module _ {K H P : Type 0} (host : Host) (run : H → Value → Eff (Client K H P) Done)
    (resume : K → Settled → Eff (Client K H P) Done) where
  -- An event of a socket comes only where a socket was made.
  pub data Step : Client K H P → Client K H P → Type 0 where
    connects : (made : Bool) (c : Client K H P) → Step c (connect made c)
    disconnects : (c : Client K H P) → Step c (disconnect c)
    sets_url : (new_url : String) (c : Client K H P) → Step c (set_url new_url c)
    listens : (event : String) (h : H) (c : Client K H P) → Step c (on event h c)
    calls :
        (sends : Bool) (method : String) (params : Value) (k : K) (c : Client K H P)
        → Step c (call sends method params k c)
    opens : (c : Client K H P) → c.ws ≢ none → Step c (on_open run c)
    closes : (c : Client K H P) → Step c (on_close run c)
    fails : (e : Value) (c : Client K H P) → Step c (on_error run e c)
    receives : (text : String) (c : Client K H P) → Step c (on_message host run text c)
    reacts : (fuel : ℕ) (c : Client K H P) → Step c (drain resume fuel c)

  pub data Reach (c : Client K H P) : Client K H P → Type 0 where
    here : Reach c c
    next : {d e : Client K H P} → Reach c d → Step d e → Reach c e

  module _
      (runs : (h : H) (v : Value) (c : Client K H P) → IsAccounted c → IsAccounted (run h v c).1)
      (resumes : (k : K) (r : Settled) → Keeps IsAccounted (resume k r)) where
    Step-IsAccounted : {c d : Client K H P} → Step c d → IsAccounted c → IsAccounted d
    unfolding connect disconnect set_url on on_open on_close on_error
    Step-IsAccounted (connects made c) a = connect-IsAccounted made c a
    Step-IsAccounted (disconnects c) a = disconnect-IsAccounted c a
    Step-IsAccounted (sets_url new_url c) a =
        resocket-IsAccounted c _ refl refl refl a.valid.socket a
    Step-IsAccounted (listens event h c) a =
        resocket-IsAccounted c _ refl refl refl a.valid.socket a
    Step-IsAccounted (calls sends method params k c) a = call-IsAccounted sends method params k c a
    Step-IsAccounted (opens c there) a =
        emit-Inv IsAccounted IsAccounted-stable run runs "connected" undefined _
          (resocket-IsAccounted c _ refl refl refl (λ _. there) a)
    Step-IsAccounted (closes c) a =
        emit-Inv IsAccounted IsAccounted-stable run runs "disconnected" undefined _
          (resocket-IsAccounted c _ refl refl refl (λ e. cc) a)
    Step-IsAccounted (fails e c) a = emit-Inv IsAccounted IsAccounted-stable run runs "error" e c a
    Step-IsAccounted (receives text c) a =
        on_message-Inv IsAccounted IsAccounted-stable run runs host text c a
    Step-IsAccounted (reacts fuel c) a =
        drain-Inv IsAccounted IsAccounted-stable run runs resume resumes fuel c a

    -- After any history the numbers of the requests rise and differ, a connected client has a
    -- socket, and every request that waits for an answer was handed to a socket, provided that the
    -- handlers of events and the reactions of promises keep this.
    pub Reach-IsAccounted : {c d : Client K H P} → Reach c d → IsAccounted c → IsAccounted d
    Reach-IsAccounted here a = a
    Reach-IsAccounted (next r s) a = Step-IsAccounted s (Reach-IsAccounted r a)
