-- ===== src/Js/Environment.antt =====
-- The host's functions, which the scripts call and do not define.
use ocpp_server.Base.{
  List, ltb, leb, ◌&&◌, ℕ, String, Bool, true, false, Option, ◌<>◌, if◌then◌else◌, ◌==◌,
}
use ocpp_server.Js.Values.{
  Number, nat, double, items, is_nullish, Value, undefined, null, bool, num, str, arr, obj,
  Elements, empty, cons, field_of, length_items,
}
use ocpp_server.Js.Effect.{Fault, type_error, Exn, fault, error, Outcome, returned, thrown}

pub record Host : Type 0 where
  -- `JSON.parse`; `none` is a SyntaxError
  pub parse : String → Option Value
  pub stringify : Value → String
  pub parse_int : String → Number
  pub parse_float : String → Number
  -- `x.toFixed(2)` and `String(x)` of a number
  pub to_fixed : Number → String
  pub number_text : Number → String
  pub to_upper : String → String
  -- `Number(s)`, which comparisons apply to a text
  pub number_of_text : String → Number
  -- the `length` of a string, in UTF-16 units
  pub length_text : String → ℕ
  -- the characters that `for (const c of s)` takes in turn
  pub characters : String → List String
  -- arithmetic of doubles: `/`, `*`, `%`, `Math.floor`, `Math.min`, `>` and `>=`
  pub divide : Number → Number → Number
  pub times : Number → Number → Number
  pub remainder : Number → Number → Number
  pub floor : Number → Number
  pub lesser : Number → Number → Number
  pub above : Number → Number → Bool
  pub at_least : Number → Number → Bool
  -- whether a text of class names, with spaces between them, has a name
  pub has_class : (class_name name : String) → Bool
  -- the message of an exception that the engine throws
  pub fault_text : Fault → String

-- `v.k`. Reading a property of `undefined` or `null` throws.
abbrev pub prop : Host → Value → String → Outcome Value
prop host undefined k = thrown (fault type_error)
prop host null k = thrown (fault type_error)
prop host (str s) k = returned (if k == "length" then num (nat (host.length_text s)) else undefined)
prop host (arr vs) k = returned (if k == "length" then num (nat (length_items vs)) else undefined)
prop host (obj fs) k = returned (field_of k fs)
prop host _ k = returned undefined

-- `e.message`
abbrev pub message : Host → Exn → String
message host (fault f) = host.fault_text f
message host (error m) = m

abbrev bool_text : Bool → String
bool_text true = "true"
bool_text false = "false"

-- `String(v)`, which a template literal applies to what it holds; `join` in an array leaves
-- `undefined` and `null` empty. An object that has a `toString` of its own, which only a
-- message can bring, has no text: `answer` tests `has_text` of Js/Json first.
unfoldable mutual
  pub text_of : Host → Value → String
  text_of host undefined = "undefined"
  text_of host null = "null"
  text_of host (bool b) = bool_text b
  text_of host (num n) = host.number_text n
  text_of host (str s) = s
  text_of host (arr vs) = join_items host vs
  text_of host (obj fs) = "[object Object]"

  join_items : Host → Elements → String
  join_items host empty = ""
  join_items host (cons v empty) = item_text host v
  join_items host (cons v (cons w vs)) = item_text host v <> "," <> join_items host (cons w vs)

  item_text : Host → Value → String
  item_text host undefined = ""
  item_text host null = ""
  item_text host (bool b) = bool_text b
  item_text host (num n) = host.number_text n
  item_text host (str s) = s
  item_text host (arr vs) = join_items host vs
  item_text host (obj fs) = "[object Object]"

-- `v.k` of a value that is neither `undefined` nor `null`.
abbrev pub read : Host → Value → String → Value
read host v k = elim (prop host v k) [ returned x ↦ x | thrown e ↦ undefined ]

-- What `element.textContent = v` shows.
abbrev pub text_content : Host → Value → String
text_content host v = if is_nullish v then "" else text_of host v

-- `v.toFixed(2)` and `v.toUpperCase()`: other values have no such method.
abbrev pub fixed_text : Host → Value → Outcome String
fixed_text host (num n) = returned (host.to_fixed n)
fixed_text host _ = thrown (fault type_error)

abbrev pub upper_text : Host → Value → Outcome String
upper_text host (str s) = returned (host.to_upper s)
upper_text host _ = thrown (fault type_error)

-- `v.forEach(…)`: only an array has it.
abbrev pub elements : Value → Outcome (List Value)
elements (arr vs) = returned (items vs)
elements _ = thrown (fault type_error)

-- The number that a value is compared as; `undefined` as no number.
abbrev pub to_number : Host → Value → Number
to_number host undefined = double 0x7ff8000000000000
to_number host null = nat 0
to_number host (bool b) = if b then nat 1 else nat 0
to_number host (num n) = n
to_number host v = host.number_of_text (text_of host v)

abbrev pub positive_number : Number → Bool
positive_number (nat n) = ltb 0 n
positive_number (double b) = ltb 0 b && leb b 0x7ff0000000000000

-- `v > 0`
abbrev pub positive : Host → Value → Bool
positive host v = positive_number (to_number host v)
