-- ===== src/Tests/Data.antt =====
-- A host that knows a few texts, a client and a page.
use ocpp_server.Base.{
  ◌<>◌, ℕ, ◌/◌, ◌*◌, ◌%◌, ltb, leb, ◌∷◌, String, true, false, Option, none, some, [], ◌==◌,
  if◌then◌else◌,
}
use ocpp_server.Js.{Number, nat, double, Value, num, str, arr, obj, empty, cons, end, field, Host}
use ocpp_server.Rpc.State.{nat_key, string_key}
use ocpp_server.Central.State.{Label, Ui}
use ocpp_server.Central.Events.{Io}

-- The message `{ id: 1, result: { stations: ["A", "B"] } }` and some others.
abbrev pub answer_1 : Value
answer_1 = obj (
    field "id" (num (nat 1)) (
      field "result" (obj (field "stations" (arr (cons (str "A") (cons (str "B") empty))) end))
        end))

abbrev pub answer_2 : Value
answer_2 = obj (
    field "id" (num (nat 2)) (
      field "result"
        (obj (
          field "status" (str "ok") (
            field "connectors"
              (arr (
                cons
                  (obj (
                    field "id" (num (nat 1))
                      (field "type" (str "CCS2") (field "status" (str "charge") end))))
                  empty))
              end)))
        end))

-- The message `{ id: 2, result: ["A", "B"] }`.
abbrev pub names_2 : Value
names_2 =
    obj
      (field "id" (num (nat 2)) (field "result" (arr (cons (str "A") (cons (str "B") empty))) end))

-- The message `{ method: "valueChanged", params: { key: "voltage", value: "231" } }`.
abbrev pub changed : Value
changed = obj (
    field "method" (str "valueChanged")
      (field "params" (obj (field "key" (str "voltage") (field "value" (str "231") end))) end))

abbrev pub refusal_1 : Value
refusal_1 = obj (field "id" (num (nat 1)) (field "error" (str "denied") end))

abbrev pub known : String → Option Value
known text =
    if text == "answer 1"
    then some answer_1
    else (if text == "answer 2"
        then some answer_2
        else (if text == "names 2"
            then some names_2
            else (if text == "changed"
                then some changed
                else (if text == "refusal 1" then some refusal_1 else none))))

-- Arithmetic that is right for natural numbers; every other number stands for 0 in it.
abbrev pub natural : Number → ℕ
natural (nat n) = n
natural (double b) = 0

abbrev pub browser : Host
browser = record {
  parse = known;
  stringify = λ v. "{}";
  parse_int = λ s. nat 1;
  parse_float = λ s. nat 1;
  to_fixed = λ n. "1.00";
  number_text = λ n. "1";
  to_upper = λ s. s;
  number_of_text = λ s. nat 1;
  length_text = λ s. 1;
  characters = λ s. s ∷ [];
  divide = λ m n. nat (natural m / natural n);
  times = λ m n. nat (natural m * natural n);
  remainder = λ m n. nat (natural m % natural n);
  floor = λ n. n;
  lesser = λ m n. if ltb (natural m) (natural n) then m else n;
  above = λ m n. ltb (natural n) (natural m);
  at_least = λ m n. leb (natural n) (natural m);
  has_class = λ class_name name. class_name == "info-item__value " <> name;
  fault_text = λ f. "fault";
}

abbrev pub no_label : Label
no_label = record { text = ""; class_name = "" }

abbrev pub new_ui : Ui
new_ui = record {
  status_led = "";
  status_text = "";
  connect_disabled = false;
  disconnect_disabled = true;
  station_options = [];
  connector_options = [];
  connector_index = none;
  station_status = no_label;
  connectors_count = "";
  max_power = "";
  connector_type = "";
  connector_status = no_label;
  meter = "";
  power = "";
  availability_on = true;
  availability_off = false;
  log = [];
}

abbrev pub working : Io
working = record { opens = true; sends = true }

abbrev pub listing : Value
listing = obj (field "result" (arr (cons (str "A") (cons (str "B") empty))) end)
