-- ===== src/Monitoring/Mirror.antt =====
-- The elements of the monitoring page show the values of its table.
use ocpp_server.Base.{
  String, ◌≡◌, refl, ap, ◌∙◌, inl, inr, Bool, Option, none, some, List, arith, ◌==◌, eq_iff,
  if◌then◌else◌, Bool-cases, Option-cases,
}
use ocpp_server.Base.Dict.{Key}
use ocpp_server.Base.Dict
use ocpp_server.Js.{Number, Value, str, Host, text_of}
use ocpp_server.Rpc.State.{nat_key, string_key}
use ocpp_server.Monitoring.State.{Shown, Panel, Monitor, update_button_states, status_color}
use ocpp_server.Monitoring.Values.{
  quantity, uptime_text, update_power_bar, show_value, update_value, or_missing, number_or_0,
  temperature_color, ValueCase, current_power, voltage, temperature, uptime, system_status,
  charging_enabled, case_of,
}

module _ (host : Host) where
  -- How an element shows the text of a value. #chargingEnabled does not: its value goes to the
  -- two buttons.
  unfoldable pub value_text : ValueCase → String → Option String
  value_text current_power text = some (quantity host "0.00 kW" " kW" text)
  value_text voltage text = some (quantity host "0.0 V" " V" text)
  value_text temperature text = some (quantity host "0.0°C" "°C" text)
  value_text uptime text = some (uptime_text host text)
  value_text charging_enabled text = none
  value_text _ text = some text

  abbrev Shows : Option String → Shown → Type 0
  Shows none e = Unit
  Shows (some text) e = e.text ≡ text

  abbrev Mirrors : ValueCase → Option Value → Option Shown → Type 0
  Mirrors c (some v) (some e) = Shows (value_text c (text_of host v)) e
  Mirrors c _ _ = Unit

  -- Each element shows the value that the table holds under its name.
  unfoldable pub IsMirrored : Monitor → Type 0
  IsMirrored m =
      (key : String)
      → Mirrors (case_of (str key)) (Dict.get key m.values) (Dict.get key m.panel.shown)

  abbrev next_shown : ValueCase → String → Shown → Shown
  next_shown c text e = elim (value_text c text) [
    | none ↦ e
    | some shown ↦ record {
      text = shown;
      color = elim c [
        | temperature ↦ temperature_color host (number_or_0 host text)
        | system_status ↦ status_color text
        | _ ↦ e.color
      ];
    }
  ]

  bar-shown :
      (power : Number) (m : Monitor) → (update_power_bar host power m).panel.shown ≡ m.panel.shown
  unfolding update_power_bar
  bar-shown power m = ground arith

  bar-values : (power : Number) (m : Monitor) → (update_power_bar host power m).values ≡ m.values
  unfolding update_power_bar
  bar-values power m = ground arith

  buttons-shown : (enabled : Bool) (p : Panel) → (update_button_states enabled p).shown ≡ p.shown
  unfolding update_button_states
  buttons-shown enabled p = ground arith

  pub show_value-values :
      (c : ValueCase) (key text : String) (e : Shown) (m : Monitor)
      → (show_value host c key text e m).values ≡ m.values
  unfolding show_value
  show_value-values current_power key text e m = bar-values _ _
  show_value-values voltage key text e m = refl
  show_value-values _ key text e m = refl

  same-get :
      (key j : String) (e : Shown) (shown : List (String × Shown))
      → Dict.get key shown ≡ some e
      → Dict.get j shown ≡ (if key == j then some e else Dict.get j shown)
  same-get key j e shown there = elim (Bool-cases (key == j)) [
    | inl same ↦ rw same (rw (← (eq_iff key j).0 same) there)
    | inr away ↦ rw away refl
  ]

  -- The element of the key afterwards, and that the others stay.
  show_value-shown :
      (c : ValueCase) (key text j : String) (e : Shown) (m : Monitor)
      → Dict.get key m.panel.shown ≡ some e
      → Dict.get j (show_value host c key text e m).panel.shown
        ≡ (if key == j then some (next_shown c text e) else Dict.get j m.panel.shown)
  unfolding show_value value_text
  show_value-shown current_power key text j e m there =
      ap (Dict.get j) (bar-shown _ _) ∙ Dict.get-set key j _ m.panel.shown
  show_value-shown charging_enabled key text j e m there =
      ap (Dict.get j) (buttons-shown _ m.panel) ∙ same-get key j e m.panel.shown there
  show_value-shown voltage key text j e m there = Dict.get-set key j _ m.panel.shown
  show_value-shown _ key text j e m there = Dict.get-set key j _ m.panel.shown

  next_shown-Shows :
      (c : ValueCase) (text : String) (e : Shown) → Shows (value_text c text) (next_shown c text e)
  unfolding value_text
  next_shown-Shows current_power text e = refl
  next_shown-Shows charging_enabled text e = tt
  next_shown-Shows _ text e = refl

  abbrev pub stored : String → Value → Monitor → Monitor
  stored key v m = record m { values = Dict.set key (or_missing v) m.values }

  pub update_value-absent :
      (key : String) (v : Value) (m : Monitor)
      → Dict.get key m.panel.shown ≡ none
      → update_value host (str key) v m ≡ stored key v m
  unfolding update_value text_of
  update_value-absent key v m absent = rw (absent, update_value) refl

  pub update_value-there :
      (key : String) (v : Value) (m : Monitor) (e : Shown)
      → Dict.get key m.panel.shown ≡ some e
      → update_value host (str key) v m
        ≡ show_value host (case_of (str key)) key (text_of host (or_missing v)) e (stored key v m)
  unfolding update_value text_of
  update_value-there key v m e there = rw (there, update_value) refl

  none-Mirrors : (c : ValueCase) (v : Option Value) → Mirrors c v none
  none-Mirrors c none = tt
  none-Mirrors c (some v) = tt

  -- Storing a value under a name keeps the page in step with the table.
  pub update_value-IsMirrored :
      (key : String) (v : Value) (m : Monitor)
      → IsMirrored m
      → IsMirrored (update_value host (str key) v m)
  unfolding IsMirrored
  update_value-IsMirrored key v m mirrored j = elim (Option-cases (Dict.get key m.panel.shown)) [
    | inl absent ↦
        rw (update_value-absent key v m absent, Dict.get-set key j (or_missing v) m.values)
          (elim (Bool-cases (key == j)) [
            | inl same ↦ rw (← (eq_iff key j).0 same, absent) (none-Mirrors _ _)
            | inr away ↦ rw away (mirrored j)
          ])
    | inr (e, there) ↦
        let text = text_of host (or_missing v) in
        rw
          (
            update_value-there key v m e there,
            show_value-values (case_of (str key)) key text e (stored key v m),
            show_value-shown (case_of (str key)) key text j e (stored key v m) there,
            Dict.get-set key j (or_missing v) m.values,
          )
          (elim (Bool-cases (key == j)) [
            | inl same ↦
                rw (same, ← (eq_iff key j).0 same) (next_shown-Shows (case_of (str key)) text e)
            | inr away ↦ rw away (mirrored j)
          ])
  ]
