-- ===== src/Monitoring/Failures.antt =====
-- The table of the monitoring page after an error.
use ocpp_server.Base.{
  ◌||◌, arith, String, ◌≡◌, refl, ap, ◌∙◌, inl, inr, Option, some, List, [], ◌∷◌, ◌==◌,
  if◌then◌else◌, Option-cases,
}
use ocpp_server.Base.Dict.{Key}
use ocpp_server.Base.Dict
use ocpp_server.Js.{Value, str, Exn, Host, text_of}
use ocpp_server.Rpc.State.{rejected, nat_key, string_key}
use ocpp_server.Monitoring.State.{Monitor, add_event}
use ocpp_server.Monitoring.Values.{update_value, update_each, or_missing, case_of}
use ocpp_server.Monitoring.Metrics.{metrics_loaded, metric_defaults}
use ocpp_server.Monitoring.Mirror.{
  stored, update_value-absent, update_value-there, show_value-values,
}

module _ (host : Host) where
  update_value-values :
      (key j : String) (v : Value) (m : Monitor)
      → Dict.get j (update_value host (str key) v m).values
        ≡ (if key == j then some (or_missing v) else Dict.get j m.values)
  update_value-values key j v m = elim (Option-cases (Dict.get key m.panel.shown)) [
    | inl absent ↦
        rw (update_value-absent host key v m absent) (Dict.get-set key j (or_missing v) m.values)
    | inr (e, there) ↦
        rw
          (
            update_value-there host key v m e there,
            show_value-values host (case_of (str key)) key (text_of host (or_missing v)) e
                (stored host key v m),
          )
          (Dict.get-set key j (or_missing v) m.values)
  ]

  -- The values that `Object.keys(…).forEach` leaves: the last one under each name.
  abbrev pub last_of : String → List (String × Value) → Option Value → Option Value
  last_of j [] found = found
  last_of j ((k, v) ∷ rest) found = last_of j rest (if k == j then some (or_missing v) else found)

  update_each-values :
      (entries : List (String × Value)) (j : String) (m : Monitor)
      → Dict.get j (update_each host entries m).values ≡ last_of j entries (Dict.get j m.values)
  unfolding update_each
  update_each-values [] j m = refl
  update_each-values ((k, v) ∷ rest) j m =
      update_each-values rest j (update_value host (str k) v m)
      ∙ ap (last_of j rest) (update_value-values k j v m)

  -- What the page shows where nothing was measured, and what another value was.
  abbrev pub unmeasured : String → Option Value → Option Value
  unmeasured j found =
      if "uptime" == j || "connectedClients" == j
      then some (str "0")
      else (if "temperature" == j || "voltage" == j
          then some (str "0.0")
          else (if "currentPower" == j then some (str "0.00") else found))

  defaults-unmeasured :
      (j : String) (found : Option Value)
      → last_of j (metric_defaults host) found ≡ unmeasured j found
  defaults-unmeasured j found = ground arith

  -- After a failed request for metrics the table holds 0.00 as the power, 0.0 as the voltage and the
  -- temperature, and 0 as the number of clients and as the uptime, whatever it held, and every other
  -- value is as it was.
  pub metrics_failed :
      (e : Exn) (m : Monitor) (j : String)
      → Dict.get j (metrics_loaded host (rejected e) m).values ≡ unmeasured j (Dict.get j m.values)
  unfolding metrics_loaded add_event
  metrics_failed e m j =
      update_each-values (metric_defaults host) j _ ∙ defaults-unmeasured j (Dict.get j m.values)
