-- ===== src/Monitoring/Metrics.antt =====
-- `MonitoringSystem`: what it makes of the answers with values and with metrics.
use ocpp_server.Base.{
  suc, String, ◌&&◌, ◌||◌, Option, none, some, List, [], ◌∷◌, if◌then◌else◌, ◌<>◌,
}
use ocpp_server.Js.{
  Value, num, str, is_nan, truthy, is_nullish, is_string, is_object, syntax_error, fault, Outcome,
  returned, thrown, Host, prop, message, text_of, read,
}
use ocpp_server.Rpc.State.{Settled, resolved, rejected, nat_key, string_key}
use ocpp_server.Monitoring.State.{Monitor, with_panel, add_event}
use ocpp_server.Monitoring.Values.{entries_of, update_value, update_each}

module _ (host : Host) where
  parsed : Value → Outcome Value
  parsed text = elim (host.parse (text_of host text)) [
    | none ↦ thrown (fault syntax_error)
    | some v ↦ returned v
  ]

  -- The text of an answer, as `startMonitoring` reads it: a text that is no JSON stays as it is.
  unfoldable pub values_of_text : String → Value
  unfolding parsed
  values_of_text text = elim (host.parse text) [
    | none ↦ str text
    | some v ↦ elim (prop host v "result") [
      | thrown e ↦ str text
      | returned result ↦
          if truthy result then elim (parsed result) [ thrown e ↦ str text | returned w ↦ w ] else v
    ]
  ]

  unfoldable pub values_of : Value → Outcome Value
  unfolding parsed values_of_text
  values_of (str text) = returned (values_of_text text)
  values_of response =
      if truthy response && is_string (read host response "result")
      then parsed (read host response "result")
      else returned response

  -- `Object.keys(values).forEach(…)`, of an object.
  abbrev pub show_all : Value → Monitor → Monitor
  show_all values m =
      if truthy values && is_object values then update_each host (entries_of host values) m else m

  -- `startMonitoring` after its `await`.
  unfoldable pub values_loaded : Settled → Monitor → Monitor
  unfolding values_of update_each entries_of add_event
  values_loaded (rejected e) m =
      with_panel (add_event ("Error starting monitoring: " <> message host e)) m
  values_loaded (resolved response) m = elim (values_of response) [
    | thrown e ↦ with_panel (add_event ("Error starting monitoring: " <> message host e)) m
    | returned values ↦
        let m' = show_all values m in
        with_panel (add_event "Monitoring started successfully")
          (record m' { intervals = suc m'.intervals })
  ]

  -- What `updateMetrics` finds in an answer; `none` is the early return.
  unfoldable pub metrics_of : Value → Option Value
  metrics_of response =
      let result = read host response "result" in
      if truthy response && truthy result
      then some (
          if is_string result
          then elim (host.parse (text_of host result)) [ none ↦ result | some v ↦ v ]
          else result)
      else (if truthy response && is_object response then some response else none)

  abbrev pub measured_value : (zero_text : String) → Value → Value
  measured_value zero_text v =
      let n = host.parse_float (text_of host v) in
      if is_nullish v || is_nan n
      then str zero_text
      else num (host.parse_float (host.number_text n))

  unfoldable pub measured : String → (zero_text : String) → Value → Monitor → Monitor
  unfolding update_value
  measured key zero_text v = update_value host (str key) (measured_value zero_text v)

  abbrev pub counted : Value → Value
  counted v = if is_nullish v then str "0" else v

  unfoldable pub counted_value : String → Value → Monitor → Monitor
  unfolding update_value
  counted_value key v = update_value host (str key) (counted v)

  unfoldable pub show_metrics : Value → Monitor → Monitor
  show_metrics found m = counted_value "uptime" (read host found "uptime") (
      counted_value "connectedClients" (read host found "connectedClients") (
        measured "temperature" "0.0" (read host found "temperature") (
          measured "voltage" "0.0" (read host found "voltage")
            (measured "currentPower" "0.00" (read host found "currentPower") m))))

  -- The values that an error leaves.
  abbrev pub metric_defaults : List (String × Value)
  metric_defaults =
      ("currentPower", str "0.00")
      ∷ ("voltage", str "0.0")
      ∷ ("temperature", str "0.0")
      ∷ ("connectedClients", str "0")
      ∷ ("uptime", str "0")
      ∷ []

  -- `updateMetrics` after its `await`.
  unfoldable pub metrics_loaded : Settled → Monitor → Monitor
  unfolding metrics_of show_metrics update_each add_event
  metrics_loaded (rejected e) m =
      update_each host metric_defaults
        (with_panel (add_event ("Error updating metrics: " <> message host e)) m)
  metrics_loaded (resolved response) m = elim (metrics_of response) [
    | none ↦ with_panel (add_event "Error: Unexpected metrics format") m
    | some found ↦
        if truthy found && is_object found
        then show_metrics found m
        else update_each host metric_defaults
            (with_panel (add_event "Error: Metrics data format invalid") m)
  ]

  -- `testRpcConnection` after its `await`.
  unfoldable pub test_ended : Settled → Monitor → Monitor
  unfolding add_event
  test_ended (resolved result) =
      with_panel (add_event ("RPC test successful: " <> text_of host result))
  test_ended (rejected e) = with_panel (add_event ("RPC test failed: " <> message host e))
