-- ===== src/Rpc/Web/Calls.antt =====
-- web/js/rpc-client.js: each operation keeps the account of requests, and what `call` does on each
-- of its paths.
use ocpp_server.Base.{
  suc, String, ◌≡◌, inl, inr, Bool, true, false, none, [], ◌∷◌, ◌++◌, arith, Bool-cases, All-append,
}
use ocpp_server.Base.Dict.{Key}
use ocpp_server.Base.Dict
use ocpp_server.Js.{Value, invalid_state, fault, error}
use ocpp_server.Rpc.State.{
  Client, Request, Settled, rejected, settle, nat_key, string_key, new_client,
}
use ocpp_server.Rpc.Pending.{
  WasSent, Rising-append, Rising-mono, RisingSent-append, RisingSent-mono, get_above, All-delete,
  All-WasSent_append, WasSent-last,
}
use ocpp_server.Rpc.Core.{next_request}
use ocpp_server.Rpc.Invariant.{IsValid, WaitsForSent, IsStable, IsValid-stable, new_client-IsValid}
use ocpp_server.Rpc.Web.{call}

-- Numbers rise, a connected client has a socket, and what waits for an answer was sent.
pub record IsAccounted {K H P : Type 0} (c : Client K H P) : Type 0 where
  pub valid : IsValid c
  pub waits : WaitsForSent c

module _ {K H P : Type 0} where
  pub IsAccounted-stable : IsStable (IsAccounted {K = K} {H = H} {P = P})
  IsAccounted-stable = record {
    settles = λ k r c a. record { valid = IsValid-stable.settles k r c a.valid; waits = a.waits };
    answers = λ n c a. record {
      valid = IsValid-stable.answers n c a.valid;
      waits = All-delete (λ e. WasSent e.0 c.sent) n c.pending_requests a.waits;
    };
    drains = λ rs c a. record { valid = IsValid-stable.drains rs c a.valid; waits = a.waits };
  }

  pub new_client-IsAccounted : (p : P) → IsAccounted (new_client {K = K} {H = H} p)
  unfolding new_client
  new_client-IsAccounted p = record { valid = new_client-IsValid p; waits = tt }

  pub unused :
      (c : Client K H P) → IsValid c → Dict.get (suc c.request_id) c.pending_requests ≡ none
  unused c v = get_above 0 c.request_id (suc c.request_id) c.pending_requests v.ids (omega arith)

  -- A request that a socket takes: it is sent under the next number and waits.
  pub call_sent :
      (method : String) (params : Value) (k : K) (c : Client K H P)
      → IsValid c
      → c.connected ≡ true
      → call true method params k c ≡ record c {
        request_id = suc c.request_id;
        pending_requests = c.pending_requests ++ (suc c.request_id, k) ∷ [];
        sent = c.sent ++ next_request (suc c.request_id) method params ∷ [];
      }
  unfolding call
  call_sent method params k c v on =
      let entered = Dict.set-fresh (suc c.request_id) k c.pending_requests (unused c v) in
      ground (arith, entered, v.socket on)

  -- A request that the socket refuses, or for which there is none: the promise is rejected, and the
  -- table of waiting requests is as before.
  pub call_refused :
      (method : String) (params : Value) (k : K) (c : Client K H P)
      → IsValid c
      → c.connected ≡ true
      → call false method params k c ≡ record c {
        request_id = suc c.request_id;
        reactions = c.reactions ++ (k, rejected (fault invalid_state)) ∷ [];
      }
  unfolding call
  call_refused method params k c v on =
      let left = Dict.delete-set (suc c.request_id) k c.pending_requests (unused c v) in
      ground (arith, left, v.socket on)

  pub call_offline :
      (sends : Bool) (method : String) (params : Value) (k : K) (c : Client K H P)
      → c.connected ≡ false
      → call sends method params k c ≡ settle k (rejected (error "Not connected to server")) c
  unfolding call
  call_offline sends method params k c off = rw off

  entered-IsAccounted :
      (method : String) (params : Value) (k : K) (c : Client K H P)
      → IsAccounted c
      → IsAccounted (record c {
        request_id = suc c.request_id;
        pending_requests = c.pending_requests ++ (suc c.request_id, k) ∷ [];
        sent = c.sent ++ next_request (suc c.request_id) method params ∷ [];
      })
  entered-IsAccounted method params k c a = record {
    valid = record {
      ids =
          Rising-append 0 c.request_id (suc c.request_id) k c.pending_requests a.valid.ids
            (omega arith);
      sent_ids = RisingSent-append 0 c.request_id c.sent request a.valid.sent_ids (omega arith);
      socket = a.valid.socket;
    };
    waits =
        All-append (λ e. WasSent e.0 (c.sent ++ request ∷ [])) c.pending_requests
          ((suc c.request_id, k) ∷ [])
          (All-WasSent_append c.pending_requests c.sent request a.waits)
          (WasSent-last c.sent request, tt);
  }
    where
      request : Request
      request = next_request (suc c.request_id) method params

  refused-IsAccounted :
      (k : K) (r : Settled) (c : Client K H P)
      → IsAccounted c
      → IsAccounted
          (record c { request_id = suc c.request_id; reactions = c.reactions ++ (k, r) ∷ [] })
  refused-IsAccounted k r c a = record {
    valid = record {
      ids =
          Rising-mono 0 c.request_id (suc c.request_id) c.pending_requests (omega arith)
            a.valid.ids;
      sent_ids =
          RisingSent-mono 0 c.request_id (suc c.request_id) c.sent (omega arith) a.valid.sent_ids;
      socket = a.valid.socket;
    };
    waits = a.waits;
  }

  pub call-IsAccounted :
      (sends : Bool) (method : String) (params : Value) (k : K) (c : Client K H P)
      → IsAccounted c
      → IsAccounted (call sends method params k c)
  call-IsAccounted sends method params k c a = elim (Bool-cases c.connected) [
    | inr off ↦ rw (call_offline sends method params k c off) (IsAccounted-stable.settles k _ c a)
    | inl on ↦ online sends on
  ]
    where
      online : (b : Bool) → c.connected ≡ true → IsAccounted (call b method params k c)
      online true on =
          rw (call_sent method params k c a.valid on) (entered-IsAccounted method params k c a)
      online false on = rw (call_refused method params k c a.valid on) (refused-IsAccounted k _ c a)
