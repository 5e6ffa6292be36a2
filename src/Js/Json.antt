-- ===== src/Js/Json.antt =====
-- What a text made by JSON.stringify says of a value, and when a value has no text at all.
use ocpp_server.Base.{
  Bool-cases, inl, inr, arith, String, Bool, true, false, not, ◌&&◌, ◌≡◌, refl, ltb, nat_eq, leb,
  if◌then◌else◌, ◌==◌,
}
use ocpp_server.Js.Values.{
  Number, nat, double, Value, undefined, null, num, arr, obj, Elements, empty, cons, Members, end,
  field, field_of, is_undefined,
}

-- A number that is not finite is written as null, and -0 as 0.
abbrev json_number : Number → Value
json_number (nat n) = num (nat n)
json_number (double b) =
    if nat_eq b 0x8000000000000000
    then num (nat 0)
    else (if leb 0x7ff0000000000000
          (if ltb b 0x8000000000000000 then b else Prim.Native.Nat.◌-◌ b 0x8000000000000000)
        then null
        else num (double b))

-- In an object a field that is undefined is left out, and in an array it is written as null.
unfoldable mutual
  pub json_of : Value → Value
  json_of (num n) = json_number n
  json_of (obj fs) = obj (json_members fs)
  json_of (arr vs) = arr (json_elements vs)
  json_of v = v

  pub json_members : Members → Members
  json_members end = end
  json_members (field k v fs) =
      let rest = json_members fs in if is_undefined v then rest else field k (json_of v) rest

  json_elements : Elements → Elements
  json_elements empty = empty
  json_elements (cons v vs) =
      let rest = json_elements vs in
      if is_undefined v then cons null rest else cons (json_of v) rest

abbrev pub has_field : String → Members → Bool
has_field k end = false
has_field k (field j v fs) = if j == k then true else has_field k fs

-- Whether `String(v)` returns: of an object with a field of its own named toString it throws, since what
-- a text or a form holds is never a function.
unfoldable mutual
  pub has_text : Value → Bool
  has_text (obj fs) = not (has_field "toString" fs)
  has_text (arr vs) = have_text vs
  has_text v = true

  have_text : Elements → Bool
  have_text empty = true
  have_text (cons v vs) = has_text v && have_text vs

-- What is there in an object is there in the text of it.
pub json_members-field_of :
    (k : String) (fs : Members)
    → is_undefined (field_of k fs) ≡ false
    → field_of k (json_members fs) ≡ json_of (field_of k fs)
unfolding json_of
json_members-field_of k end h = cc
json_members-field_of k (field j v fs) h = elim (Bool-cases (j == k)) [
  | inl same ↦ ground (arith, same, h)
  | inr away ↦
      let found : is_undefined (field_of k fs) ≡ false = ground (arith, away, h) in
      ground (arith, away, json_members-field_of k fs found)
]

pub json_members-missing :
    (k : String) (fs : Members) → has_field k fs ≡ false → field_of k (json_members fs) ≡ undefined
unfolding json_of
json_members-missing k end h = refl
json_members-missing k (field j v fs) h =
    let (other, rest) = away (j == k) (has_field k fs) h in
    ground (arith, other, json_members-missing k fs rest)
  where
    away : (b c : Bool) → (if b then true else c) ≡ false → (b ≡ false) × (c ≡ false)
    away true c e = cc
    away false c e = (refl, e)
