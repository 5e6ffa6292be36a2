-- ===== src/Monitoring/Values.antt =====
-- `MonitoringSystem.updateValue` and what it calls.
use ocpp_server.Base.{ℕ, suc, String, ◌||◌, none, some, List, [], ◌∷◌, ◌==◌, if◌then◌else◌, ◌<>◌}
use ocpp_server.Base.Dict.{Key}
use ocpp_server.Base.Dict
use ocpp_server.Js.{
  Number, nat, Value, str, arr, obj, Members, end, field, items, is_nan, truthy, strict_eq,
  is_nullish, Eff, Done, lift, gets, ◌>>=◌, modify, done, Host, prop, text_of, text_content,
}
use ocpp_server.Rpc.State.{nat_key, string_key}
use ocpp_server.Monitoring.State.{Shown, Monitor, with_panel, update_button_states, status_color}

-- `Object.keys(v)` with the values, of an object or an array.
unfoldable pub indexed : (ℕ → String) → ℕ → List Value → List (String × Value)
indexed name i [] = []
indexed name i (v ∷ vs) = (name i, v) ∷ indexed name (suc i) vs

unfoldable pub members : Members → List (String × Value)
members end = []
members (field k v fs) = (k, v) ∷ members fs

pub data ValueCase : Type 0 where
  current_power voltage temperature uptime system_status charging_enabled other : ValueCase

-- The `switch` on a key. One that is no text fits no case.
unfoldable pub case_of : Value → ValueCase
case_of key =
    if strict_eq key (str "currentPower")
    then current_power
    else (if strict_eq key (str "voltage")
        then voltage
        else (if strict_eq key (str "temperature")
            then temperature
            else (if strict_eq key (str "uptime")
                then uptime
                else (if strict_eq key (str "systemStatus")
                    then system_status
                    else (if strict_eq key (str "chargingEnabled")
                        then charging_enabled
                        else other)))))

abbrev pub or_missing : Value → Value
or_missing value = if is_nullish value then str "N/A" else value

abbrev pub put_shown : String → Shown → Monitor → Monitor
put_shown key e = with_panel λ p. record p { shown = Dict.set key e p.shown }

module _ (host : Host) where
  unfoldable pub entries_of : Value → List (String × Value)
  unfolding indexed members
  entries_of (obj fs) = members fs
  entries_of (arr vs) = indexed (λ i. host.number_text (nat i)) 0 (items vs)
  entries_of _ = []

  -- `isNaN(n) ? zero : parseFloat(n) + unit`, for the number that a text starts with.
  unfoldable pub quantity : (zero_text unit : String) → String → String
  quantity zero_text unit text =
      let n = host.parse_float text in
      if is_nan n
      then zero_text
      else host.number_text (host.parse_float (host.number_text n)) <> unit

  -- The number that goes with it.
  unfoldable pub number_or_0 : String → Number
  number_or_0 text = let n = host.parse_float text in if is_nan n then nat 0 else n

  unfoldable pub temperature_color : Number → String
  temperature_color temp =
      if host.above temp (nat 60)
      then "#e74c3c"
      else (if host.above temp (nat 45) then "#f39c12" else "#27ae60")

  -- `parseInt(this.values['maxPower'] || 50)`
  unfoldable pub max_power : List (String × Value) → Number
  max_power values = host.parse_int (elim (Dict.get "maxPower" values) [
    | none ↦ host.number_text (nat 50)
    | some v ↦ if truthy v then text_of host v else host.number_text (nat 50)
  ])

  unfoldable pub percentage : Number → Number → Number
  percentage power most = host.lesser (host.times (host.divide power most) (nat 100)) (nat 100)

  unfoldable pub bar_background : Number → String
  bar_background percent =
      if host.above percent (nat 90)
      then "linear-gradient(90deg, #e74c3c, #c0392b)"
      else (if host.above percent (nat 70)
          then "linear-gradient(90deg, #f39c12, #e67e22)"
          else "linear-gradient(90deg, #27ae60, #2ecc71)")

  unfoldable pub update_power_bar : Number → Monitor → Monitor
  unfolding max_power percentage bar_background
  update_power_bar power m =
      let percent = percentage power (max_power m.values) in
      elim m.panel.power_bar [
        | none ↦ m
        | some bar ↦
            with_panel
              (λ p. record p {
                power_bar = some (record {
                  width = host.number_text percent <> "%";
                  background = bar_background percent;
                });
              })
              m
      ]

  -- The parts of an uptime: `Math.floor(…)` of doubles.
  abbrev quotient : Number → ℕ → Number
  quotient n k = host.floor (host.divide n (nat k))

  unfoldable pub uptime_texts : Number → List (Number × String)
  uptime_texts seconds =
      let d = quotient seconds 86400 in
      let h = quotient (host.remainder seconds (nat 86400)) 3600 in
      let m = quotient (host.remainder seconds (nat 3600)) 60 in
      let s = host.remainder seconds (nat 60) in
      if host.above d (nat 0)
      then (d, "d ") ∷ (h, "h ") ∷ (m, "m") ∷ []
      else (if host.above h (nat 0)
          then (h, "h ") ∷ (m, "m ") ∷ (s, "s") ∷ []
          else (m, "m ") ∷ (s, "s") ∷ [])

  abbrev pub join_texts : List (Number × String) → String
  join_texts [] = ""
  join_texts ((n, unit) ∷ []) = host.number_text n <> unit
  join_texts ((n, unit) ∷ parts) = host.number_text n <> unit <> join_texts parts

  unfoldable pub format_uptime : Number → String
  unfolding uptime_texts
  format_uptime seconds = join_texts (uptime_texts seconds)

  unfoldable pub uptime_text : String → String
  unfolding format_uptime
  uptime_text text = let n = host.parse_int text in if is_nan n then "0s" else format_uptime n

  -- The cases of `updateValue`, whose element is `e`. The key is a text by now.
  unfoldable pub show_value : ValueCase → (key text : String) → Shown → Monitor → Monitor
  unfolding quantity number_or_0 temperature_color update_power_bar uptime_text status_color
      update_button_states
  show_value current_power key text e m =
      update_power_bar (number_or_0 text)
        (put_shown key (record e { text = quantity "0.00 kW" " kW" text }) m)
  show_value voltage key text e m = put_shown key (record e { text = quantity "0.0 V" " V" text }) m
  show_value temperature key text e m =
      put_shown key
        (record { text = quantity "0.0°C" "°C" text; color = temperature_color (number_or_0 text) })
        m
  show_value uptime key text e m = put_shown key (record e { text = uptime_text text }) m
  show_value system_status key text e m =
      put_shown key (record { text = text; color = status_color text }) m
  show_value charging_enabled key text e m =
      with_panel (update_button_states (text == "true" || text == "1")) m
  show_value other key text e m = put_shown key (record e { text = text }) m

  -- `updateValue`
  unfoldable pub update_value : Value → Value → Monitor → Monitor
  unfolding show_value case_of
  update_value key value m =
      let m' = record m { values = Dict.set (text_of host key) (or_missing value) m.values } in
      elim (Dict.get (text_of host key) m.panel.shown) [
        | none ↦ m'
        | some e ↦
            show_value (case_of key) (text_of host key) (text_of host (or_missing value)) e m'
      ]

  -- `updateSystemStatus`, which no method calls.
  unfoldable pub update_system_status : Value → Eff Monitor Done
  update_system_status status = do
    found ← gets (λ m. Dict.get "systemStatus" m.panel.shown)
    elim found [
      | none ↦ done
      | some e ↦ do
        v ← lift (prop host status "status")
        modify (
            put_shown "systemStatus" (record {
              text = text_content host v;
              color =
                  if strict_eq v (str "running")
                  then "#27ae60"
                  else (if strict_eq v (str "warning") then "#f39c12" else "#e74c3c");
            }))
    ]

  unfoldable pub update_each : List (String × Value) → Monitor → Monitor
  unfolding update_value
  update_each [] m = m
  update_each ((k, v) ∷ rest) m = update_each rest (update_value (str k) v m)
