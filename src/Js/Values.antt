-- ===== src/Js/Values.antt =====
-- Values of the language, as JSON texts and forms supply them, and the operators that the scripts
-- apply to them. Objects come fresh from a parsed text, so no two of them are the same object.
use ocpp_server.Base.{
  ℕ, String, Bool, true, false, not, ◌&&◌, List, [], ◌∷◌, ltb, nat_eq, if◌then◌else◌, ◌==◌, suc,
}

-- A number that is a non-negative integer, or any other double by its 64 bits.
pub data Number : Type 0 where
  nat : ℕ → Number
  double : ℕ → Number

mutual
  pub data Value : Type 0 where
    undefined null : Value
    bool : Bool → Value
    num : Number → Value
    str : String → Value
    obj : Members → Value
    arr : Elements → Value

  pub data Members : Type 0 where
    end : Members
    field : (key : String) (value : Value) → Members → Members

  pub data Elements : Type 0 where
    empty : Elements
    cons : Value → Elements → Elements

abbrev pub items : Elements → List Value
items empty = []
items (cons v vs) = v ∷ items vs

abbrev pub length_items : Elements → ℕ
length_items empty = 0
length_items (cons v vs) = suc (length_items vs)

-- The sign bit alone is -0. Without it, what exceeds the bits of infinity is no number.
abbrev minus_zero : ℕ
minus_zero = 0x8000000000000000

abbrev drop_sign : ℕ → ℕ
drop_sign b = if ltb b minus_zero then b else Prim.Native.Nat.◌-◌ b minus_zero

abbrev pub is_nan : Number → Bool
is_nan (nat n) = false
is_nan (double b) = ltb 0x7ff0000000000000 (drop_sign b)

abbrev pub truthy : Value → Bool
truthy undefined = false
truthy null = false
truthy (bool b) = b
truthy (num (nat n)) = ltb 0 n
truthy (num (double b)) = not (is_nan (double b)) && not (nat_eq b minus_zero)
truthy (str s) = not (s == "")
truthy (arr _) = true
truthy (obj _) = true

abbrev pub same_number : Number → Number → Bool
same_number (nat m) (nat n) = nat_eq m n
same_number (nat m) (double b) = nat_eq m 0 && nat_eq b minus_zero
same_number (double b) (nat n) = nat_eq n 0 && nat_eq b minus_zero
same_number (double b) (double c) = nat_eq b c && not (is_nan (double b))

-- `a === b`
abbrev pub strict_eq : Value → Value → Bool
strict_eq undefined undefined = true
strict_eq null null = true
strict_eq (bool true) (bool b) = b
strict_eq (bool false) (bool b) = not b
strict_eq (num m) (num n) = same_number m n
strict_eq (str s) (str t) = s == t
strict_eq _ _ = false

-- `x === undefined` and `x === null`
abbrev pub is_undefined : Value → Bool
is_undefined undefined = true
is_undefined _ = false

abbrev pub is_nullish : Value → Bool
is_nullish undefined = true
is_nullish null = true
is_nullish _ = false

-- `typeof x === 'string'` and `typeof x === 'object'`
abbrev pub is_string : Value → Bool
is_string (str s) = true
is_string _ = false

abbrev pub is_object : Value → Bool
is_object null = true
is_object (arr _) = true
is_object (obj _) = true
is_object _ = false

abbrev pub field_of : String → Members → Value
field_of k end = undefined
field_of k (field j v fs) = if j == k then v else field_of k fs
