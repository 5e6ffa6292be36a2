-- ===== src/Monitoring/Uptime.antt =====
-- The uptime that the monitoring page shows.
use ocpp_server.Base.{
  ◌/◌, ◌<◌, ◌≤◌, ◌<>◌, refl, Bool, true, false, ℕ, ◌+◌, ◌-◌, ◌*◌, ◌%◌, String, ◌≡◌, List, [], ◌∷◌,
  arith, ◌==◌, ltb, if◌then◌else◌,
}
use ocpp_server.Js.{nat, Host}
use ocpp_server.Monitoring.Values.{format_uptime, join_texts}
use ocpp_server.Monitoring.State.{uptime_parts, days, hours, minutes, secs}

-- The seconds of a part, by its letter.
abbrev unit : String → ℕ
unit letter =
    if letter == "d"
    then 86400
    else (if letter == "h" then 3600 else (if letter == "m" then 60 else 1))

abbrev pub total : List (ℕ × String) → ℕ
total [] = 0
total ((n, letter) ∷ parts) = n * unit letter + total parts

-- The parts come to the uptime, but for the seconds of its last minute where it is a day or more.
total-uptime_parts :
    (seconds : ℕ)
    → total (uptime_parts seconds) ≡ (if ltb seconds 86400 then seconds else seconds - seconds % 60)
unfolding uptime_parts
total-uptime_parts seconds = ground arith

-- What `Math.floor(m / n)`, `m % n` and `m > n` are for whole numbers below 2 ^ 53 that the parts of
-- an uptime are made of.
pub record IsExact (host : Host) : Type 0 where
  pub floors :
      (m n : ℕ)
      → m < 9007199254740992
      → 0 < n
      → n ≤ 86400
      → host.floor (host.divide (nat m) (nat n)) ≡ nat (m / n)
  pub remains :
      (m n : ℕ)
      → m < 9007199254740992
      → 0 < n
      → n ≤ 86400
      → host.remainder (nat m) (nat n) ≡ nat (m % n)
  pub exceeds : (m n : ℕ) → m < 9007199254740992 → host.above (nat m) (nat n) ≡ ltb n m

module _ (host : Host) where
  -- The parts in words, with spaces between them.
  abbrev pub spaced : List (ℕ × String) → String
  spaced [] = ""
  spaced ((n, letter) ∷ []) = host.number_text (nat n) <> letter
  spaced ((n, letter) ∷ more) = host.number_text (nat n) <> (letter <> " ") <> spaced more

  joined :
      (some_days some_hours : Bool) (d h m s : ℕ)
      → join_texts host (
          if some_days
          then (nat d, "d ") ∷ (nat h, "h ") ∷ (nat m, "m") ∷ []
          else (if some_hours
              then (nat h, "h ") ∷ (nat m, "m ") ∷ (nat s, "s") ∷ []
              else (nat m, "m ") ∷ (nat s, "s") ∷ []))
        ≡ spaced (
            if some_days
            then (d, "d") ∷ (h, "h") ∷ (m, "m") ∷ []
            else (if some_hours
                then (h, "h") ∷ (m, "m") ∷ (s, "s") ∷ []
                else (m, "m") ∷ (s, "s") ∷ []))
  joined true some_hours d h m s = refl
  joined false true d h m s = refl
  joined false false d h m s = refl

  format_uptime-spaced :
      (seconds : ℕ)
      → IsExact host
      → seconds < 9007199254740992
      → format_uptime host (nat seconds) ≡ spaced (uptime_parts seconds)
  unfolding format_uptime uptime_parts
  format_uptime-spaced seconds exact small =
      rw
        (
          exact.remains seconds 86400 small (omega arith) (omega arith),
          exact.remains seconds 3600 small (omega arith) (omega arith),
          exact.remains seconds 60 small (omega arith) (omega arith),
          exact.floors seconds 86400 small (omega arith) (omega arith),
          exact.floors (seconds % 86400) 3600 (omega arith) (omega arith) (omega arith),
          exact.floors (seconds % 3600) 60 (omega arith) (omega arith) (omega arith),
          exact.exceeds (seconds / 86400) 0 (omega arith),
          exact.exceeds (seconds % 86400 / 3600) 0 (omega arith),
        )
        (joined (ltb 0 (days seconds)) (ltb 0 (hours seconds)) (days seconds) (hours seconds)
          (minutes seconds) (secs seconds))

  -- On whole seconds below 2 ^ 53, if division, remainder and comparison of doubles are exact on
  -- them, the text of an uptime is that of its parts, with spaces between them; and the parts, each
  -- times its unit, come to the uptime if it is less than a day, and otherwise to the uptime without
  -- the seconds of its last minute.
  pub format_uptime_lem :
      (seconds : ℕ)
      → IsExact host
      → seconds < 9007199254740992
      → (format_uptime host (nat seconds) ≡ spaced (uptime_parts seconds))
        × (total (uptime_parts seconds)
            ≡ (if ltb seconds 86400 then seconds else seconds - seconds % 60))
  format_uptime_lem seconds exact small =
      (format_uptime-spaced seconds exact small, total-uptime_parts seconds)
