-- ===== src/Monitoring/Answers.antt =====
-- The page and the table after the answers of the server.
use ocpp_server.Base.{ℕ, String, inl, inr, ◌&&◌, List, [], ◌∷◌, Bool-cases, Option-cases}
use ocpp_server.Js.{Value, str, truthy, is_object, Outcome-cases, Host}
use ocpp_server.Rpc.State.{Settled, resolved, rejected, nat_key, string_key}
use ocpp_server.Monitoring.State.{
  Monitor, MonitorWorld, with_panel, add_event, tell, Pause, initial_values, metrics, debug_metrics,
  direct_metrics, test_value, command,
}
use ocpp_server.Monitoring.Values.{update_value, update_each, entries_of}
use ocpp_server.Monitoring.Metrics.{
  values_of, metrics_of, values_loaded, metrics_loaded, show_all, measured, counted_value,
  show_metrics, test_ended, metric_defaults, measured_value, counted,
}
use ocpp_server.Monitoring.Commands.{command_ended}
use ocpp_server.Monitoring.Events.{resume}
use ocpp_server.Monitoring.Mirror.{IsMirrored, update_value-IsMirrored}

module _ (host : Host) where
  update_each-IsMirrored :
      (entries : List (String × Value)) (m : Monitor)
      → IsMirrored host m
      → IsMirrored host (update_each host entries m)
  unfolding update_each
  update_each-IsMirrored [] m i = i
  update_each-IsMirrored ((k, v) ∷ rest) m i =
      update_each-IsMirrored rest (update_value host (str k) v m)
        (update_value-IsMirrored host k v m i)

  show_all-IsMirrored :
      (values : Value) (m : Monitor) → IsMirrored host m → IsMirrored host (show_all host values m)
  show_all-IsMirrored values m i = elim (Bool-cases (truthy values && is_object values)) [
    | inl found ↦ rw found (update_each-IsMirrored (entries_of host values) m i)
    | inr none_found ↦ rw none_found i
  ]

  log-IsMirrored :
      (text : String) (m : Monitor)
      → IsMirrored host m
      → IsMirrored host (with_panel (add_event text) m)
  unfolding IsMirrored add_event
  log-IsMirrored text m i = i

  measured-IsMirrored :
      (key zero_text : String) (v : Value) (m : Monitor)
      → IsMirrored host m
      → IsMirrored host (measured host key zero_text v m)
  unfolding measured
  measured-IsMirrored key zero_text v m i =
      update_value-IsMirrored host key (measured_value host zero_text v) m i

  counted_value-IsMirrored :
      (key : String) (v : Value) (m : Monitor)
      → IsMirrored host m
      → IsMirrored host (counted_value host key v m)
  unfolding counted_value
  counted_value-IsMirrored key v m i = update_value-IsMirrored host key (counted host v) m i

  show_metrics-IsMirrored :
      (found : Value) (m : Monitor)
      → IsMirrored host m
      → IsMirrored host (show_metrics host found m)
  unfolding show_metrics
  show_metrics-IsMirrored found m i = counted_value-IsMirrored _ _ _ (
      counted_value-IsMirrored _ _ _
        (measured-IsMirrored _ _ _ _ (measured-IsMirrored _ _ _ _ (measured-IsMirrored _ _ _ _ i))))

  defaults-IsMirrored :
      (text : String) (m : Monitor)
      → IsMirrored host m
      → IsMirrored host (update_each host (metric_defaults host) (with_panel (add_event text) m))
  defaults-IsMirrored text m i = update_each-IsMirrored _ _ (log-IsMirrored text m i)

  begun-IsMirrored :
      (text : String) (n : ℕ) (m : Monitor)
      → IsMirrored host m
      → IsMirrored host (with_panel (add_event text) (record m { intervals = n }))
  unfolding IsMirrored add_event
  begun-IsMirrored text n m i = i

  values_loaded-IsMirrored :
      (r : Settled) (m : Monitor) → IsMirrored host m → IsMirrored host (values_loaded host r m)
  unfolding values_loaded
  values_loaded-IsMirrored (rejected e) m i = log-IsMirrored _ m i
  values_loaded-IsMirrored (resolved response) m i =
      elim (Outcome-cases (values_of host response)) [
        | inl (values, e) ↦
            rw (e, values_loaded) (begun-IsMirrored _ _ _ (show_all-IsMirrored values m i))
        | inr (fails, e) ↦ rw (e, values_loaded) (log-IsMirrored _ m i)
      ]

  metrics_loaded-IsMirrored :
      (r : Settled) (m : Monitor) → IsMirrored host m → IsMirrored host (metrics_loaded host r m)
  unfolding metrics_loaded
  metrics_loaded-IsMirrored (rejected e) m i = defaults-IsMirrored _ m i
  metrics_loaded-IsMirrored (resolved response) m i =
      elim (Option-cases (metrics_of host response)) [
        | inl none_found ↦ rw (none_found, metrics_loaded) (log-IsMirrored _ m i)
        | inr (found, e) ↦
            rw (e, metrics_loaded)
              (elim (Bool-cases (truthy found && is_object found)) [
                | inl good ↦ rw good (show_metrics-IsMirrored found m i)
                | inr bad ↦ rw bad (defaults-IsMirrored _ m i)
              ])
      ]

  test_ended-IsMirrored :
      (r : Settled) (m : Monitor) → IsMirrored host m → IsMirrored host (test_ended host r m)
  unfolding test_ended
  test_ended-IsMirrored (resolved result) m i = log-IsMirrored _ m i
  test_ended-IsMirrored (rejected e) m i = log-IsMirrored _ m i

  command_ended-IsMirrored :
      (name : String) (r : Settled) (w : MonitorWorld)
      → IsMirrored host w.page
      → IsMirrored host (command_ended host name r w).page
  unfolding command_ended tell IsMirrored add_event
  command_ended-IsMirrored name (resolved result) w i = i
  command_ended-IsMirrored name (rejected e) w i = i

  -- Whatever an answer holds, and if it is an error too, the page stays in step with the table.
  pub resume-IsMirrored :
      (k : Pause) (r : Settled) (w : MonitorWorld)
      → IsMirrored host w.page
      → IsMirrored host (resume host k r w).page
  unfolding resume
  resume-IsMirrored initial_values r w i = values_loaded-IsMirrored r w.page i
  resume-IsMirrored metrics r w i = metrics_loaded-IsMirrored r w.page i
  resume-IsMirrored debug_metrics r w i = i
  resume-IsMirrored direct_metrics r w i = i
  resume-IsMirrored test_value r w i = test_ended-IsMirrored r w.page i
  resume-IsMirrored (command name) r w i = command_ended-IsMirrored name r w i
