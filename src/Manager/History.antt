-- ===== src/Manager/History.antt =====
-- The page of `StationManager` after any sequence of events since it was loaded.
use ocpp_server.Base.{
  suc, String, ◌≡◌, refl, ◌∙◌, ◌⊎◌, inl, inr, Bool, true, [], ◌∷◌, ◌++◌, arith, All, All-append,
}
use ocpp_server.Base.Dict.{Key}
use ocpp_server.Base.Dict
use ocpp_server.Js.{Value, Host}
use ocpp_server.Rpc.State.{new_client, nat_key, string_key}
use ocpp_server.Rpc.Invariant.{IsValid}
use ocpp_server.Rpc.Upheld.{IsValid-IsUpheld}
use ocpp_server.Rpc.Core.{send, enter, next_request}
use ocpp_server.Rpc.Monitor.{call, transmit, connect}
use ocpp_server.Rpc.Emitter.{on}
use ocpp_server.Central.Reactions.{registered}
use ocpp_server.Manager.State.{ManagerUi, Pending, ManagerWorld}
use ocpp_server.Manager.Events.{
  register, request_initial, init_manager, new_manager, ManagerEvent, step_manager,
}
use ocpp_server.Manager.Protocol.{Follows, IsProper}
use ocpp_server.Manager.Upkeep.{IsPossible, IsTended, step_manager-Inv}
use ocpp_server.Manager.Reactions.{step_manager-reactions}

-- One event after another, each with what the socket does then.
pub data Run (host : Host) (u : ManagerWorld) : ManagerWorld → Type 0 where
  here : Run host u u
  next :
      {v : ManagerWorld} (sends opens : Bool) (event : ManagerEvent)
      → Run host u v
      → IsPossible event v
      → Run host u (step_manager host sends opens event v)

pub Run-Inv :
    (Inv : ManagerWorld → Type 0) (tended : IsTended Inv) (host : Host) {u w : ManagerWorld}
    → Run host u w
    → Inv u
    → Inv w
Run-Inv Inv tended host here i = i
Run-Inv Inv tended host (next {v} sends opens event r possible) i =
    step_manager-Inv Inv tended host sends opens event v possible (Run-Inv Inv tended host r i)

IsValid-IsTended : IsTended IsValid
IsValid-IsTended = record {
  steady = IsValid-IsUpheld.steady;
  calls = λ sends method params k w follows v. IsValid-IsUpheld.calls sends method params k w v;
}

abbrev IsRegistered : ManagerWorld → Type 0
IsRegistered w = w.event_handlers ≡ registered

call-handlers :
    (sends : Bool) (method : String) (params : Value) (k : Pending) (w : ManagerWorld)
    → (call sends method params k w).event_handlers ≡ w.event_handlers
unfolding call transmit enter send
call-handlers sends method params k w = ground arith

connect-handlers :
    (opens : Bool) (url : String) (w : ManagerWorld)
    → (connect opens url w).event_handlers ≡ w.event_handlers
unfolding connect
connect-handlers opens url w = ground arith

IsRegistered-IsTended : IsTended IsRegistered
IsRegistered-IsTended = record {
  steady = record {
    stable = record { settles = λ k r c i. i; answers = λ n c i. i; drains = λ rs c i. i };
    pages = λ p w i. i;
    connects = λ opens url w i. connect-handlers opens url w ∙ i;
    waits = λ n ts w i. i;
    opened = λ w there i. i;
    closed = λ w i. i;
  };
  calls = λ sends method params k w follows i. call-handlers sends method params k w ∙ i;
}

abbrev AllProper : ManagerWorld → Type 0
AllProper w = All IsProper w.sent

connect-sent :
    (opens : Bool) (url : String) (w : ManagerWorld) → (connect opens url w).sent ≡ w.sent
unfolding connect
connect-sent opens url w = ground arith

-- A request is sent, or it is not.
call-sent :
    (sends : Bool) (method : String) (params : Value) (k : Pending) (w : ManagerWorld)
    → ((call sends method params k w).sent ≡ w.sent)
      ⊎ ((call sends method params k w).sent
          ≡ w.sent ++ next_request (suc w.request_id) method params ∷ [])
unfolding call transmit enter send
call-sent sends method params k w = ground arith

call-AllProper :
    (sends : Bool) (method : String) (params : Value) (k : Pending) (w : ManagerWorld)
    → Follows method params
    → AllProper w
    → AllProper (call sends method params k w)
call-AllProper sends method params k w follows i = elim (call-sent sends method params k w) [
  | inl same ↦ rw same i
  | inr longer ↦ rw longer (
      All-append IsProper w.sent _ i
        (record { params = params; taken = refl; follows = follows }, tt))
]

AllProper-IsTended : IsTended AllProper
AllProper-IsTended = record {
  steady = record {
    stable = record { settles = λ k r c i. i; answers = λ n c i. i; drains = λ rs c i. i };
    pages = λ p w i. i;
    connects = λ opens url w i. rw (connect-sent opens url w) i;
    waits = λ n ts w i. i;
    opened = λ w there i. i;
    closed = λ w i. i;
  };
  calls = call-AllProper;
}

module _ (host : Host) (ui : ManagerUi) where
  -- The page as it is when the constructor has run, with the client that the page has.
  abbrev pub loaded : ManagerWorld
  loaded = init_manager host true (new_client (new_manager ui))

  loaded-IsValid : IsValid loaded
  unfolding init_manager register request_initial on new_client new_manager
  loaded-IsValid = record { ids = omega arith; sent_ids = omega arith; socket = λ e. cc }

  loaded-reactions : loaded.reactions ≡ []
  unfolding init_manager register request_initial on new_client new_manager
  loaded-reactions = refl

  loaded-IsRegistered : IsRegistered loaded
  unfolding init_manager register request_initial on new_client new_manager Dict.set Dict.get
      Dict.has
  loaded-IsRegistered = refl

  loaded-AllProper : AllProper loaded
  unfolding init_manager register request_initial on new_client new_manager
  loaded-AllProper = tt

  Run-reactions : {w : ManagerWorld} → Run host loaded w → w.reactions ≡ []
  Run-reactions here = loaded-reactions
  Run-reactions (next {v} sends opens event r possible) =
      step_manager-reactions host sends opens event v

  -- Whatever happened to the page since it was loaded, the numbers of the waiting requests and of
  -- the sent ones rise, a connected client has a socket, and the reaction of every promise that was
  -- settled has run; a socket opens only where one was made, and a timer ends only where one runs.
  pub manager-IsSettled : {w : ManagerWorld} → Run host loaded w → IsValid w × (w.reactions ≡ [])
  manager-IsSettled r = (Run-Inv IsValid IsValid-IsTended host r loaded-IsValid, Run-reactions r)

  pub Run-IsRegistered : {w : ManagerWorld} → Run host loaded w → w.event_handlers ≡ registered
  Run-IsRegistered r = Run-Inv IsRegistered IsRegistered-IsTended host r loaded-IsRegistered

  -- Whatever happened to the page since it was loaded, each request whose text a socket took is one of
  -- the protocol: its method is known, and its parameters are what JSON.stringify keeps of an object
  -- with the names of the method in their order, so that a parameter which is undefined is left out;
  -- in that object a button's request names a station, or for the three buttons of a connector
  -- a connector, with a value that is not empty; a socket opens only where one was made, and a timer ends
  -- only where one runs.
  pub Run-IsProper : {w : ManagerWorld} → Run host loaded w → All IsProper w.sent
  Run-IsProper r = Run-Inv AllProper AllProper-IsTended host r loaded-AllProper
