-- ===== src/Rpc/Emitter.antt =====
-- `on`, `off` and `emit`.
pub mod Registration
use ocpp_server.Base.{
  ℕ, zero, suc, length, get_elem?, [], String, Option, none, some, List, ◌∷◌, ◌++◌, if◌then◌else◌,
}
use ocpp_server.Base.Dict.{Key}
use ocpp_server.Base.Dict
use ocpp_server.Js.{Value, Eff, Done}
use ocpp_server.Rpc.State.{nat_key, string_key, Client}

abbrev pub handlers_of {ℓ} : {H : Type ℓ} → Option (List H) → List H
handlers_of none = []
handlers_of (some hs) = hs

-- `indexOf` and `splice(index, 1)`
unfoldable pub splice_first {ℓ} : {H : Type ℓ} ⦃key : Key H⦄ → H → List H → List H
splice_first handler [] = []
splice_first ⦃key⦄ handler (h ∷ hs) = if key.same h handler then hs else h ∷ splice_first handler hs

module _ {K H P : Type 0} where
  -- What `emit(event, …)` runs.
  unfoldable pub handlers : String → Client K H P → List H
  handlers event c = handlers_of (Dict.get event c.event_handlers)

  unfoldable pub on : String → H → Client K H P → Client K H P
  unfolding handlers
  on event handler c = record c {
    event_handlers =
        let m =
          if Dict.has event c.event_handlers
          then c.event_handlers
          else Dict.set event [] c.event_handlers in
        Dict.set event (handlers_of (Dict.get event m) ++ handler ∷ []) m;
  }

  module _ ⦃key : Key H⦄ where
    unfoldable pub off : String → H → Client K H P → Client K H P
    unfolding splice_first
    off event handler c =
        if Dict.has event c.event_handlers
        then record c {
          event_handlers =
              Dict.set event (splice_first handler (handlers event c)) c.event_handlers;
        }
        else c

  -- The body of a handler. It may change the client and the page.
  module _ (run : H → Value → Eff (Client K H P) Done) where
    -- `forEach` of `emit` from an index on, over the array as it is by then: a handler may remove
    -- handlers of the event, and those behind move up. As many indices are visited as there were
    -- handlers at first. What one handler throws does not keep the next from running.
    unfoldable pub run_each : String → Value → (left index : ℕ) → Client K H P → Client K H P
    unfolding handlers
    run_each event param zero index c = c
    run_each event param (suc left) index c = elim (get_elem? (handlers event c) index) [
      | none ↦ run_each event param left (suc index) c
      | some h ↦ run_each event param left (suc index) (run h param c).1
    ]

    unfoldable pub emit : String → Value → Client K H P → Client K H P
    unfolding run_each
    emit event param c =
        if Dict.has event c.event_handlers
        then run_each event param (length (handlers event c)) 0 c
        else c
