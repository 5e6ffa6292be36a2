-- ===== src/Ocpp/Reactions.antt =====
-- The reactions that an event of `OCPPSystem` leaves.
use ocpp_server.Base.{ℕ, ◌+◌, ◌*◌, ◌≤◌, ◌<◌, ◌≡◌, Bool, [], arith, length}
use ocpp_server.Js.{obj, end, Host}
use ocpp_server.Rpc.State.{Settled, resolved, rejected}
use ocpp_server.Rpc.Draining.{total, total-le, call-total, drain-reactions}
use ocpp_server.Ocpp.State.{OcppWorld, Waiting, points_count, points_ids, action}
use ocpp_server.Ocpp.Commands.{acted}
use ocpp_server.Ocpp.Loading.{go_on}
use ocpp_server.Ocpp.Events.{OcppEvent, going_on, handle_ocpp, step_ocpp}

weight : Waiting → ℕ
weight points_count = 2
weight points_ids = 1
weight (action a) = 1

module _ (host : Host) (sends : Bool) where
  going_on-spends :
      (k : Waiting) (r : Settled) (w : OcppWorld)
      → total weight (going_on host sends k r w).1.reactions < total weight w.reactions + weight k
  unfolding go_on weight acted
  going_on-spends points_count (resolved response) w =
      omega (arith, call-total weight sends "getChargePointIds" (obj end) points_ids w)
  going_on-spends points_count (rejected e) w = omega arith
  going_on-spends points_ids r w = omega arith
  going_on-spends (action a) (resolved response) w = omega arith
  going_on-spends (action a) (rejected e) w = omega arith

  weight-le : (k : Waiting) → weight k ≤ 2
  unfolding weight
  weight-le points_count = omega arith
  weight-le points_ids = omega arith
  weight-le (action a) = omega arith

  -- When an event of the page has ended, the reaction of every promise that it settled has run, those
  -- included that a reaction settled.
  pub step_ocpp-reactions :
      (opens : Bool) (event : OcppEvent) (w : OcppWorld)
      → (step_ocpp host sends opens event w).reactions ≡ []
  unfolding step_ocpp
  step_ocpp-reactions opens event w =
      let w' = handle_ocpp host sends opens event w in
      drain-reactions weight (going_on host sends) going_on-spends (2 * length w'.reactions) w'
        (total-le weight 2 w'.reactions weight-le)
