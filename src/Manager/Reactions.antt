-- ===== src/Manager/Reactions.antt =====
-- The reactions that an event of `StationManager` leaves.
use ocpp_server.Base.{ℕ, ◌+◌, ◌*◌, ◌≤◌, ◌<◌, ◌≡◌, Bool, true, false, [], arith, length}
use ocpp_server.Js.{
  Value, Outcome, returned, thrown, Eff, Done, lift, gets, try_catch, ◌>>=◌, modify, when, Host,
}
use ocpp_server.Rpc.State.{Settled, resolved, rejected, nat_key, string_key}
use ocpp_server.Rpc.Draining.{total, total-le, call-total, drain-reactions}
use ocpp_server.Manager.State.{
  ManagerPage, Pending, stations_list, station_change, connector_change, task, ManagerWorld,
  on_manager, on_page_act,
}
use ocpp_server.Manager.Selection.{
  request_station, request_connector, choose_first, list_loaded, offer_connectors, station_loaded,
  connector_loaded,
}
use ocpp_server.Manager.Events.{proceed, ManagerEvent, handle_manager, step_manager}

abbrev pub weight : Pending → ℕ
weight stations_list = 3
weight (station_change id) = 2
weight (connector_change id) = 1
weight (task t) = 1

weight-le : (k : Pending) → weight k ≤ 3
weight-le stations_list = omega arith
weight-le (station_change id) = omega arith
weight-le (connector_change id) = omega arith
weight-le (task t) = omega arith

-- `m` settles promises of the weight `n` at most.
record Settles (n : ℕ) {A : Type 0} (m : Eff ManagerWorld A) : Type 0 where
  pub at : (w : ManagerWorld) → total weight (m w).1.reactions ≤ total weight w.reactions + n

module _ {A : Type 0} where
  Settles-lift : (r : Outcome A) → Settles 0 (lift r)
  Settles-lift r = record { at = λ w. omega arith }

  Settles-gets : (f : ManagerWorld → A) → Settles 0 (gets f)
  Settles-gets f = record { at = λ w. omega arith }

  Settles-page : (act : Eff ManagerPage A) → Settles 0 (on_page_act act)
  Settles-page act = record { at = λ w. omega arith }

Settles-on : (f : ManagerPage → ManagerPage) → Settles 0 (modify (on_manager f))
Settles-on f = record { at = λ w. omega arith }

continue-Settles :
    {A : Type 0} (n : ℕ) (r : Outcome A) (f : A → Eff ManagerWorld Done)
    → ((a : A) → Settles n (f a))
    → Settles n (lift r >>= f)
continue-Settles n (returned a) f sf = record { at = (sf a).at }
continue-Settles n (thrown e) f sf = record { at = λ w. omega arith }

-- What settles nothing, and then something.
Settles-after :
    {A : Type 0} (n : ℕ) (m : Eff ManagerWorld A) (f : A → Eff ManagerWorld Done)
    → Settles 0 m
    → ((a : A) → Settles n (f a))
    → Settles n (m >>= f)
Settles-after n m f sm sf = record {
  at = λ w. omega (arith, sm.at w, (continue-Settles n (m w).0 f sf).at (m w).1);
}

Settles-when : (n : ℕ) (b : Bool) (m : Eff ManagerWorld Done) → Settles n m → Settles n (when b m)
Settles-when n true m s = s
Settles-when n false m s = record { at = λ w. omega arith }

caught-Settles :
    (n : ℕ) (r : Outcome Done) (f : ManagerPage → ManagerPage)
    → Settles n (try_catch (lift r) (λ e. modify (on_manager f)))
caught-Settles n (returned a) f = record { at = λ w. omega arith }
caught-Settles n (thrown e) f = record { at = λ w. omega arith }

Settles-try_catch :
    (n : ℕ) (m : Eff ManagerWorld Done) (f : ManagerPage → ManagerPage)
    → Settles n m
    → Settles n (try_catch m (λ e. modify (on_manager f)))
Settles-try_catch n m f s = record {
  at = λ w. omega (arith, s.at w, (caught-Settles 0 (m w).0 f).at (m w).1);
}

ruleset settles_rules = (
  Settles-lift, Settles-gets, Settles-page, Settles-on, Settles-after, Settles-when,
  Settles-try_catch,
)

module _ (host : Host) (sends : Bool) where
  request_station-Settles : (id : Value) → Settles 2 (modify (request_station host sends id))
  unfolding request_station
  request_station-Settles id = record {
    at = λ w. call-total weight sends _ _ (station_change id) (record w { page = _ });
  }

  request_connector-Settles : (id : Value) → Settles 1 (modify (request_connector host sends id))
  unfolding request_connector
  request_connector-Settles id = record {
    at = λ w. call-total weight sends _ _ (connector_change id) (record w { page = _ });
  }

  choose_first-Settles : (stations : Value) → Settles 2 (choose_first host sends stations)
  unfolding choose_first
  choose_first-Settles stations = search (settles_rules, request_station-Settles)

  offer_connectors-Settles :
      (connectors : Value) → Settles 1 (offer_connectors host sends connectors)
  unfolding offer_connectors
  offer_connectors-Settles connectors = search (settles_rules, request_connector-Settles)

  proceed-spends :
      (k : Pending) (r : Settled) (w : ManagerWorld)
      → total weight (proceed host sends k r w).1.reactions < total weight w.reactions + weight k
  unfolding proceed connector_loaded list_loaded station_loaded
  proceed-spends stations_list (resolved v) w =
      let s : Settles 2 (list_loaded host sends (resolved v)) =
        search (settles_rules, choose_first-Settles) depth 9 in
      omega (arith, s.at w)
  proceed-spends stations_list (rejected e) w = omega arith
  proceed-spends (station_change id) (resolved v) w =
      let s : Settles 1 (station_loaded host sends id (resolved v)) =
        search (settles_rules, offer_connectors-Settles) depth 9 in
      omega (arith, s.at w)
  proceed-spends (station_change id) (rejected e) w = omega arith
  proceed-spends (connector_change id) (resolved v) w =
      let s : Settles 0 (connector_loaded host sends id (resolved v)) =
        search settles_rules depth 9 in
      omega (arith, s.at w)
  proceed-spends (connector_change id) (rejected e) w = omega arith
  proceed-spends (task t) r w = omega arith

  -- When an event of the page has ended, the reaction of every promise that it settled has run, those
  -- included that a reaction settled.
  pub step_manager-reactions :
      (opens : Bool) (event : ManagerEvent) (w : ManagerWorld)
      → (step_manager host sends opens event w).reactions ≡ []
  unfolding step_manager
  step_manager-reactions opens event w =
      let w' = handle_manager host sends opens event w in
      drain-reactions weight (proceed host sends) proceed-spends (3 * length w'.reactions) w'
        (total-le weight 3 w'.reactions weight-le)
