-- ===== src/Monitoring/Reactions.antt =====
-- The reactions that an event of the monitoring page leaves.
use ocpp_server.Base.{◌≡◌, refl, []}
use ocpp_server.Js.{Host}
use ocpp_server.Rpc.State.{Settled, resolved, rejected}
use ocpp_server.Rpc.Draining.{drain-length}
use ocpp_server.Monitoring.State.{
  MonitorWorld, Pause, initial_values, metrics, debug_metrics, direct_metrics, test_value, command,
}
use ocpp_server.Monitoring.Commands.{command_ended}
use ocpp_server.Monitoring.Events.{
  resume, resumed, SocketState, MonitorEvent, handle_event, step_event,
}

module _ (host : Host) where
  resume-reactions :
      (k : Pause) (r : Settled) (w : MonitorWorld) → (resume host k r w).reactions ≡ w.reactions
  unfolding resume command_ended
  resume-reactions initial_values r w = refl
  resume-reactions metrics r w = refl
  resume-reactions debug_metrics r w = refl
  resume-reactions direct_metrics r w = refl
  resume-reactions test_value r w = refl
  resume-reactions (command name) (resolved result) w = refl
  resume-reactions (command name) (rejected e) w = refl

  -- When an event of the monitoring page has ended, the reaction of every promise that it settled
  -- has run.
  pub step_event-reactions :
      (io : SocketState) (event : MonitorEvent) (w : MonitorWorld)
      → (step_event host io event w).reactions ≡ []
  unfolding step_event
  step_event-reactions io event w =
      drain-length (resumed host) (handle_event host io event w) (resume-reactions)
