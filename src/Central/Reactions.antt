-- ===== src/Central/Reactions.antt =====
-- The promises that an event settles, and the handlers that the page has registered.
use ocpp_server.Base.{length, String, ◌≡◌, refl, ◌∙◌, Bool, List, [], ◌∷◌, arith}
use ocpp_server.Base.Dict.{Key}
use ocpp_server.Base.Dict
use ocpp_server.Js.{Value, Host}
use ocpp_server.Rpc.State.{Settled, nat_key, string_key, new_client, set_url}
use ocpp_server.Central.State.{
  Ui, Await, Handler, connected_handler, disconnected_handler, status_notification_handler,
  meter_values_handler, heartbeat_handler, World,
}
use ocpp_server.Central.View.{add_log_entry}
use ocpp_server.Rpc.Draining.{drain-length}
use ocpp_server.Rpc.Core.{disconnect, drain}
use ocpp_server.Central.Events.{resume, init, new_page, Event, Io, handle, step}
use ocpp_server.Rpc.Web.{connect, call}
use ocpp_server.Central.Blind.{IsBlind}
use ocpp_server.Central.Settling.{resume-Keeps}
use ocpp_server.Central.Closed.{IsClosed, Run, Run-Inv}

-- What goes on when a promise is settled makes no request and settles no promise.
reactions-blind : (rs : List (Await × Settled)) → IsBlind (λ w. w.reactions ≡ rs)
unfolding add_log_entry
reactions-blind rs = record {
  tolerant = record { shows = λ u w same i. i; logs = λ text kind w i. i };
  pages = λ p w same i. i;
}

-- The methods of the settled promises after their `await`, once each and in the order of settlement.
abbrev pub continued : Host → List (Await × Settled) → World → World
continued host [] w = w
continued host ((k, r) ∷ rest) w =
    continued host rest (resume host k r (record w { reactions = rest })).1

resume-reactions :
    (host : Host) (k : Await) (r : Settled) (w : World)
    → (resume host k r w).1.reactions ≡ w.reactions
resume-reactions host k r w =
    (resume-Keeps (λ u. u.reactions ≡ w.reactions) (reactions-blind w.reactions) host k r).at w refl

drain-continued :
    (host : Host) (rs : List (Await × Settled)) (w : World)
    → w.reactions ≡ rs
    → drain (resume host) (length rs) w ≡ continued host rs w
unfolding drain
drain-continued host [] w e = refl
drain-continued host ((k, r) ∷ rest) w e =
    rw (e, drain)
      (drain-continued host rest (resume host k r (record w { reactions = rest })).1
        (resume-reactions host k r (record w { reactions = rest })))

-- All but the page and the queue is as it is in `u`.
abbrev SameClient : World → World → Type 0
SameClient u w = record w { page = u.page; reactions = [] } ≡ record u { reactions = [] }

SameClient-blind : (u : World) → IsBlind (SameClient u)
unfolding add_log_entry
SameClient-blind u = record {
  tolerant = record { shows = λ v w same i. i; logs = λ text kind w i. i };
  pages = λ p w same i. i;
}

continued-SameClient :
    (host : Host) (u : World) (rs : List (Await × Settled)) (w : World)
    → SameClient u w
    → SameClient u (continued host rs w)
continued-SameClient host u [] w i = i
continued-SameClient host u ((k, r) ∷ rest) w i = continued-SameClient host u rest _ (
    (resume-Keeps (SameClient u) (SameClient-blind u) host k r).at (record w { reactions = rest })
      i)

-- After the handler of an event of the central page, the method of each promise that it settled goes on,
-- once each and in the order of settlement, and then none is left; what goes on changes the page
-- alone: it sends nothing, makes no request wait and settles no promise.
pub step_lem :
    (host : Host) (io : Io) (event : Event) (w : World)
    → let u = handle host io event w in
      let v = step host io event w in
      (v ≡ continued host u.reactions u)
      × (v.reactions ≡ [])
      × (record v { page = u.page; reactions = [] } ≡ record u { reactions = [] })
unfolding step
step_lem host io event w =
    let u = handle host io event w in
    let same = drain-continued host u.reactions u refl in
    (
      same,
      drain-length (resume host) u (resume-reactions host),
      rw same (continued-SameClient host u u.reactions u refl),
    )

-- What `setupRpcHandlers` registers on a new client.
abbrev pub registered : List (String × List Handler)
registered =
    ("connected", connected_handler ∷ [])
    ∷ ("disconnected", disconnected_handler ∷ [])
    ∷ ("StatusNotification", status_notification_handler ∷ [])
    ∷ ("MeterValues", meter_values_handler ∷ [])
    ∷ ("Heartbeat", heartbeat_handler ∷ [])
    ∷ []

abbrev pub IsRegistered : World → Type 0
IsRegistered w = w.event_handlers ≡ registered

call-handlers :
    (sends : Bool) (method : String) (params : Value) (k : Await) (w : World)
    → (call sends method params k w).event_handlers ≡ w.event_handlers
unfolding call
call-handlers sends method params k w = ground arith

connect-handlers : (made : Bool) (w : World) → (connect made w).event_handlers ≡ w.event_handlers
unfolding connect
connect-handlers made w = ground arith

disconnect-handlers : (w : World) → (disconnect w).event_handlers ≡ w.event_handlers
unfolding disconnect
disconnect-handlers w = ground arith

IsRegistered-closed : IsClosed IsRegistered
unfolding add_log_entry set_url
IsRegistered-closed = record {
  stable = record { settles = λ k r c i. i; answers = λ n c i. i; drains = λ rs c i. i };
  blind = record {
    tolerant = record { shows = λ u w same i. i; logs = λ text kind w i. i };
    pages = λ p w same i. i;
  };
  calls = λ sends method params k w i. call-handlers sends method params k w ∙ i;
  opened = λ w there i. i;
  closed = λ w i. i;
  connects = λ made w i. connect-handlers made w ∙ i;
  disconnects = λ w i. disconnect-handlers w ∙ i;
  urls = λ url w i. i;
}

init-IsRegistered :
    (host : Host) (sends : Bool) (ui : Ui)
    → IsRegistered (init host sends (new_client (new_page ui)))
unfolding init new_client new_page Dict.set Dict.get Dict.has
init-IsRegistered host sends ui = refl

-- The five handlers stay registered, each for its event, whatever happens to the page.
pub Run-IsRegistered :
    (host : Host) (sends : Bool) (ui : Ui) (w : World)
    → Run host (init host sends (new_client (new_page ui))) w
    → IsRegistered w
Run-IsRegistered host sends ui w r =
    Run-Inv IsRegistered IsRegistered-closed host r (init-IsRegistered host sends ui)
