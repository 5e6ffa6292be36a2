-- ===== src/Ocpp/History.antt =====
-- The page of `OCPPSystem` after any sequence of events since it was loaded.
use ocpp_server.Base.{◌≡◌, refl, Bool, true, false, [], arith}
use ocpp_server.Js.{Host}
use ocpp_server.Rpc.State.{new_client, nat_key, string_key}
use ocpp_server.Rpc.Invariant.{IsValid}
use ocpp_server.Rpc.Upheld.{IsUpheld, IsValid-IsUpheld}
use ocpp_server.Rpc.Monitor.{connect}
use ocpp_server.Rpc.Emitter.{on}
use ocpp_server.Ocpp.State.{Screen, OcppWorld}
use ocpp_server.Ocpp.View.{add_log, show_connection, update_stations_list}
use ocpp_server.Ocpp.Loading.{
  init_system, init_demo_mode, setup_handlers, load_stations, new_system,
}
use ocpp_server.Ocpp.Events.{OcppEvent, step_ocpp}
use ocpp_server.Ocpp.Reactions.{step_ocpp-reactions}
use ocpp_server.Ocpp.Upkeep.{IsPossible, step_ocpp-Inv}

-- One event after another, each with what the socket does then.
pub data Run (host : Host) (u : OcppWorld) : OcppWorld → Type 0 where
  here : Run host u u
  next :
      {v : OcppWorld} (sends opens : Bool) (event : OcppEvent)
      → Run host u v
      → IsPossible event v
      → Run host u (step_ocpp host sends opens event v)

pub Run-Inv :
    (Inv : OcppWorld → Type 0) (upheld : IsUpheld Inv) (host : Host) {u w : OcppWorld}
    → Run host u w
    → Inv u
    → Inv w
Run-Inv Inv upheld host here i = i
Run-Inv Inv upheld host (next {v} sends opens event r possible) i =
    step_ocpp-Inv Inv upheld host sends opens event v possible (Run-Inv Inv upheld host r i)

module _ (host : Host) (screen : Screen) where
  -- The page as it is when its script has run; `found` says whether there was a client.
  abbrev pub loaded : (found opens : Bool) → OcppWorld
  loaded found opens = init_system host true found opens (new_client (new_system screen))

  loaded-IsValid : (found opens : Bool) → IsValid (loaded found opens)
  unfolding init_system init_demo_mode setup_handlers load_stations connect on new_client new_system
      add_log show_connection update_stations_list
  loaded-IsValid true true = record {
    ids = omega arith;
    sent_ids = omega arith;
    socket = λ _ e. cc;
  }
  loaded-IsValid true false = record { ids = omega arith; sent_ids = omega arith; socket = λ e. cc }
  loaded-IsValid false opens = record {
    ids = omega arith;
    sent_ids = omega arith;
    socket = λ e. cc;
  }

  loaded-reactions : (found opens : Bool) → (loaded found opens).reactions ≡ []
  unfolding init_system init_demo_mode setup_handlers load_stations connect on new_client new_system
      add_log show_connection update_stations_list
  loaded-reactions true true = refl
  loaded-reactions true false = refl
  loaded-reactions false opens = refl

  module _ (found opens : Bool) where
    Run-reactions : {w : OcppWorld} → Run host (loaded found opens) w → w.reactions ≡ []
    Run-reactions here = loaded-reactions found opens
    Run-reactions (next {v} sends opens event r possible) =
        step_ocpp-reactions host sends opens event v

    -- Whatever happened to the page since it was loaded, the numbers of the waiting requests and of
    -- the sent ones rise, a connected client has a socket, and the reaction of every promise that was
    -- settled has run; a socket opens only where one was made, and a timer ends only where one runs.
    pub Run-IsSettled :
        {w : OcppWorld} → Run host (loaded found opens) w → IsValid w × (w.reactions ≡ [])
    Run-IsSettled r =
        (Run-Inv IsValid IsValid-IsUpheld host r (loaded-IsValid found opens), Run-reactions r)
