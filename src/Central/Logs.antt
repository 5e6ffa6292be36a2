-- ===== src/Central/Logs.antt =====
-- The log under every event of the page.
use ocpp_server.Base.{String, ◌≡◌, sym, ap, ◌∙◌, Bool, List, [], ◌∷◌, ◌++◌, arith}
use ocpp_server.Js.{Value, Host}
use ocpp_server.Rpc.State.{nat_key, string_key, set_url}
use ocpp_server.Central.State.{Entry, Await, World}
use ocpp_server.Central.View.{entry, add_log_entry}
use ocpp_server.Rpc.Core.{disconnect}
use mathlib.Core.List.{append_assoc, append-nil}
use ocpp_server.Rpc.Web.{connect, call}
use ocpp_server.Central.Closed.{IsClosed, Run, Run-Inv}

-- The log is `old` with more lines behind it.
abbrev pub Extends : List Entry → World → Type 0
Extends old w = (more : List Entry) × (w.page.ui.log ≡ old ++ more)

-- The operations of the client leave the page alone.
call-page :
    (sends : Bool) (method : String) (params : Value) (k : Await) (w : World)
    → (call sends method params k w).page ≡ w.page
unfolding call
call-page sends method params k w = ground arith

connect-page : (made : Bool) (w : World) → (connect made w).page ≡ w.page
unfolding connect
connect-page made w = ground arith

disconnect-page : (w : World) → (disconnect w).page ≡ w.page
unfolding disconnect
disconnect-page w = ground arith

Extends-closed : (old : List Entry) → IsClosed (Extends old)
unfolding add_log_entry set_url
Extends-closed old = record {
  stable = record { settles = λ k r c i. i; answers = λ n c i. i; drains = λ rs c i. i };
  blind = record {
    tolerant = record {
      shows = λ u w same i. (i.0, same ∙ i.1);
      logs = λ text kind w i. (
        i.0 ++ entry kind text ∷ [],
        ap (λ l. l ++ entry kind text ∷ []) i.1 ∙ append_assoc old i.0 (entry kind text ∷ []),
      );
    };
    pages = λ p w same i. (i.0, ap (λ u. u.log) same ∙ i.1);
  };
  calls = λ sends method params k w i.
      (i.0, ap (λ p. p.ui.log) (call-page sends method params k w) ∙ i.1);
  opened = λ w there i. i;
  closed = λ w i. i;
  connects = λ made w i. (i.0, ap (λ p. p.ui.log) (connect-page made w) ∙ i.1);
  disconnects = λ w i. (i.0, ap (λ p. p.ui.log) (disconnect-page w) ∙ i.1);
  urls = λ url w i. i;
}

-- No event takes a line out of the log or changes one: new lines stand behind the old ones.
pub Run-Extends :
    (host : Host) (v w : World)
    → Run host v w
    → (more : List Entry) × (w.page.ui.log ≡ v.page.ui.log ++ more)
Run-Extends host v w r =
    Run-Inv (Extends v.page.ui.log) (Extends-closed v.page.ui.log) host r
      ([], sym (append-nil v.page.ui.log))
