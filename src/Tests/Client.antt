-- ===== src/Tests/Client.antt =====
-- The JSON-RPC clients.
use ocpp_server.Base.{ℕ, suc, ◌≡◌, refl, true, false, some, [], ◌∷◌, arith}
use ocpp_server.Base.Dict.{Key}
use ocpp_server.Base.Dict
use ocpp_server.Js.{Value, undefined, null, returned, Eff, Done}
use ocpp_server.Tests.Data.{answer_1, browser}
use ocpp_server.Rpc.State.{Client, nat_key, string_key, new_client}
use ocpp_server.Rpc.Core.{route, disconnect}
use ocpp_server.Rpc.Emitter.{on, off, emit, handlers}
use ocpp_server.Rpc.Invariant.{IsValid}
use ocpp_server.Rpc.Answers.{outstanding, forget, outstanding_answer}
use ocpp_server.Rpc.Emitter.Registration.{run_all, emit-on, off-on}
use ocpp_server.Rpc.Web
use ocpp_server.Rpc.Agreement.{calls_agree}
use ocpp_server.Rpc.Monitor
use ocpp_server.Rpc.Monitor.Reconnect.{retry, close_times_bounded, close_times, disconnect_lem}

-- A client whose page is a number, which the one kind of handler counts up.
abbrev count : ℕ → Value → Eff (Client ℕ ℕ ℕ) Done
count h v c = (returned tt, record c { page = suc c.page })

abbrev busy : Client ℕ ℕ ℕ
busy = record (new_client 0) {
  ws = some 0;
  sockets = 1;
  connected = true;
  request_id = 3;
  pending_requests = (1, 10) ∷ (3, 30) ∷ [];
}

busy-IsValid : IsValid busy
unfolding new_client
busy-IsValid = record { ids = omega arith; sent_ids = omega arith; socket = λ _ e. cc }

outstanding_answer_example :
    outstanding (route browser count answer_1 busy).1 ≡ forget 1 (outstanding busy)
unfolding Dict.get
outstanding_answer_example =
    outstanding_answer browser count answer_1 1 10 undefined busy refl busy-IsValid refl refl

emit-on_example :
    emit count "error" null (on "error" 7 busy)
    ≡ (count 7 null (run_all count (handlers "error" busy) null (on "error" 7 busy))).1
emit-on_example = emit-on count (λ h v c. refl) "error" null 7 busy

off-on_example : handlers "error" (off "error" 7 (on "error" 7 busy)) ≡ handlers "error" busy
unfolding new_client handlers Dict.get
off-on_example = off-on "error" "error" 7 busy tt

count_quiet : (h : ℕ) (v : Value) (c : Client ℕ ℕ ℕ) → retry (count h v c).1 ≡ retry c
count_quiet h v c = refl

close_times_bounded_example : (close_times count 9 busy).reconnect_attempts ≡ 5
unfolding new_client
close_times_bounded_example = (close_times_bounded count count_quiet 9 busy (omega arith)).0

disconnect_lem_example : (Monitor.on_timer true (disconnect busy)).ws ≡ some 1
unfolding new_client
disconnect_lem_example = (disconnect_lem count count_quiet busy).1

calls_agree_example :
    Web.call false "getMetrics" null 40 busy
    ≡ record (Monitor.call false "getMetrics" null 40 busy) {
      pending_requests = (1, 10) ∷ (3, 30) ∷ [];
    }
unfolding new_client
calls_agree_example = calls_agree false "getMetrics" null 40 busy busy-IsValid
