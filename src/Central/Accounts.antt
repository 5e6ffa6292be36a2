-- ===== src/Central/Accounts.antt =====
-- The account of requests under every event of the page.
use ocpp_server.Base.{refl, Bool, arith}
use ocpp_server.Js.{Host}
use ocpp_server.Rpc.State.{nat_key, string_key, new_client, set_url}
use ocpp_server.Central.State.{Ui, World}
use ocpp_server.Central.View.{add_log_entry}
use ocpp_server.Central.Events.{init, new_page}
use ocpp_server.Rpc.Web.Calls.{IsAccounted, IsAccounted-stable, call-IsAccounted}
use ocpp_server.Rpc.Web.History.{resocket-IsAccounted, connect-IsAccounted, disconnect-IsAccounted}
use ocpp_server.Central.Closed.{IsClosed, Run, Run-Inv}

IsAccounted-closed : IsClosed IsAccounted
unfolding add_log_entry set_url
IsAccounted-closed = record {
  stable = IsAccounted-stable;
  blind = record {
    tolerant = record {
      shows = λ u w _ a. resocket-IsAccounted w _ refl refl refl a.valid.socket a;
      logs = λ text kind w a. resocket-IsAccounted w _ refl refl refl a.valid.socket a;
    };
    pages = λ p w _ a. resocket-IsAccounted w _ refl refl refl a.valid.socket a;
  };
  calls = call-IsAccounted;
  opened = λ w there a. resocket-IsAccounted w _ refl refl refl (λ _. there) a;
  closed = λ w a. resocket-IsAccounted w _ refl refl refl (λ e. cc) a;
  connects = connect-IsAccounted;
  disconnects = disconnect-IsAccounted;
  urls = λ url w a. resocket-IsAccounted w _ refl refl refl a.valid.socket a;
}

module _ (host : Host) where
  -- The page as it is when its script has run.
  init-IsAccounted :
      (sends : Bool) (ui : Ui) → IsAccounted (init host sends (new_client (new_page ui)))
  unfolding init new_client new_page
  init-IsAccounted sends ui = record {
    valid = record { ids = omega arith; sent_ids = omega arith; socket = λ e. cc };
    waits = tt;
  }

  -- Whatever happened since the page was loaded, the numbers of the waiting requests and of the sent
  -- ones rise, a connected client has a socket, and every request that waits for an answer was
  -- handed to a socket; a socket opens only where one was made.
  pub Run-IsAccounted :
      (sends : Bool) (ui : Ui) (w : World)
      → Run host (init host sends (new_client (new_page ui))) w
      → IsAccounted w
  Run-IsAccounted sends ui w r =
      Run-Inv IsAccounted IsAccounted-closed host r (init-IsAccounted sends ui)
