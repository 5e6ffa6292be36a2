-- ===== src/Rpc/Params.antt =====
-- What a client keeps when its handlers keep it only for some parameters.
use ocpp_server.Base.{
  zero, suc, length, get_elem?, ℕ, String, ◌≡◌, refl, inl, inr, true, false, Option, none, some,
  List, ltb, Bool-cases, Option-cases,
}
use ocpp_server.Base.Dict.{Key}
use ocpp_server.Base.Dict
use ocpp_server.Js.{
  Value, undefined, null, bool, num, str, arr, obj, truthy, Outcome, returned, thrown, Eff, Done,
  lift, gets, ◌>>=◌, modify, Keeps, Keeps-lift, Keeps-gets, Keeps-if, Keeps-modify, Keeps-done,
  Keeps-bind, keeps_rules, Host, prop,
}
use ocpp_server.Rpc.State.{Client, nat_key, string_key}
use ocpp_server.Rpc.Core.{answer, emit_value, notify, route, handle_message, on_message, on_open}
use ocpp_server.Rpc.Emitter.{emit, handlers, run_each}
use ocpp_server.Rpc.Invariant.{IsStable}
use ocpp_server.Rpc.Monitor.{handle_reconnect, on_close}

-- A step that depends on what a call returned.
pub given-Keeps :
    {S A B : Type 0} {Inv : S → Type 0} (o : Outcome A) (f : A → Eff S B)
    → ((a : A) → o ≡ returned a → Keeps Inv (f a))
    → Keeps Inv (lift o >>= f)
given-Keeps (returned a) f k = record { at = (k a refl).at }
given-Keeps (thrown e) f k = record { at = λ s i. i }

-- The parameters of the message that a text holds, if it holds one and these can be read, satisfy `Q`.
abbrev pub Carries : Host → (Value → Type 0) → String → Type 0
Carries host Q text =
    (msg p : Value) → host.parse text ≡ some msg → prop host msg "params" ≡ returned p → Q p

-- And so do those of the message in the text that it holds, if it holds a text.
pub record HasParams (host : Host) (Q : Value → Type 0) (text : String) : Type 0 where
  pub outer : Carries host Q text
  pub inner : (within : String) → host.parse text ≡ some (str within) → Carries host Q within

module _ {K H P : Type 0} (Inv : Client K H P → Type 0) (stable : IsStable Inv) (Q : Value → Type 0)
    (run : H → Value → Eff (Client K H P) Done)
    (keeps : (h : H) (v : Value) → Q v → Keeps Inv (run h v)) where
  run_each-given :
      (event : String) (v : Value) (left index : ℕ) (c : Client K H P)
      → Q v
      → Inv c
      → Inv (run_each run event v left index c)
  unfolding run_each
  run_each-given event v zero index c q i = i
  run_each-given event v (suc left) index c q i =
      elim (Option-cases (get_elem? (handlers event c) index)) [
        | inl gone ↦ rw (gone, run_each) (run_each-given event v left (suc index) c q i)
        | inr (h, there) ↦
            rw (there, run_each)
              (run_each-given event v left (suc index) (run h v c).1 q ((keeps h v q).at c i))
      ]

  pub emit-given :
      (event : String) (v : Value) (c : Client K H P) → Q v → Inv c → Inv (emit run event v c)
  unfolding emit
  emit-given event v c q i = elim (Bool-cases (Dict.has event c.event_handlers)) [
    | inl some_handler ↦
        rw some_handler (run_each-given event v (length (handlers event c)) 0 c q i)
    | inr none_there ↦ rw none_there i
  ]

  emit_value-given :
      (event v : Value) (c : Client K H P) → Q v → Inv c → Inv (emit_value run event v c)
  unfolding emit_value
  emit_value-given (str event) v c q i = emit-given event v c q i
  emit_value-given _ v c q i = i

  module _ (none_given : Q undefined) where
    pub on_open-given :
        (c : Client K H P)
        → Inv (record c { connected = true; reconnect_attempts = 0 })
        → Inv (on_open run c)
    unfolding on_open
    on_open-given c i = emit-given "connected" undefined _ none_given i

    handle_reconnect-given :
        (c : Client K H P)
        → ((n : ℕ) (ts : List ℕ) (d : Client K H P)
            → Inv d
            → Inv (record d { reconnect_attempts = n; timers = ts }))
        → Inv c
        → Inv (handle_reconnect run c)
    unfolding handle_reconnect
    handle_reconnect-given c waits i =
        elim (Bool-cases (ltb c.reconnect_attempts c.max_reconnect_attempts)) [
          | inl again ↦ rw again (waits _ _ c i)
          | inr spent ↦ rw spent (emit-given "reconnect_failed" undefined c none_given i)
        ]

    pub on_close-given :
        (c : Client K H P)
        → ((n : ℕ) (ts : List ℕ) (d : Client K H P)
            → Inv d
            → Inv (record d { reconnect_attempts = n; timers = ts }))
        → Inv (record c { connected = false })
        → Inv (on_close run c)
    unfolding on_close
    on_close-given c waits i =
        handle_reconnect-given (emit run "disconnected" undefined (record c { connected = false }))
          waits (emit-given "disconnected" undefined (record c { connected = false }) none_given i)

  module _ (host : Host) where
    notify-given :
        (msg : Value)
        → ((p : Value) → prop host msg "params" ≡ returned p → Q p)
        → Keeps Inv (notify host run msg)
    unfolding notify
    notify-given msg sound = Keeps-bind (lift (prop host msg "method")) _ (Keeps-lift _) (λ method.
        Keeps-if (truthy method) _ _
          (given-Keeps (prop host msg "params") _
            (λ p found. Keeps-modify _ (λ c i. emit_value-given method p c (sound p found) i)))
          Keeps-done)

    answer-given : (msg : Value) (n : ℕ) (k : K) → Keeps Inv (answer host msg n k)
    unfolding answer
    answer-given msg n k = search (keeps_rules, stable.answers, stable.settles)

    found-given :
        (msg : Value) (found : Option (ℕ × K))
        → ((p : Value) → prop host msg "params" ≡ returned p → Q p)
        → Keeps Inv (elim found [ none ↦ notify host run msg | some (n, k) ↦ answer host msg n k ])
    found-given msg none sound = notify-given msg sound
    found-given msg (some (n, k)) sound = answer-given msg n k

    route-given :
        (msg : Value)
        → ((p : Value) → prop host msg "params" ≡ returned p → Q p)
        → Keeps Inv (route host run msg)
    unfolding route
    route-given msg sound =
        Keeps-bind (lift (prop host msg "id")) _ (Keeps-lift _)
          (λ id. Keeps-bind (gets _) _ (Keeps-gets _) (λ found. found-given msg found sound))

    module _ (text_given : (text : String) → Q (str text)) where
      parsed-given :
          (text : String) (parsed : Option Value)
          → Carries host Q text
          → host.parse text ≡ parsed
          → Keeps Inv (elim parsed [
            | none ↦ modify (emit run "message" (str text))
            | some msg ↦ route host run msg
          ])
      parsed-given text none sound e =
          Keeps-modify _ (λ c i. emit-given "message" (str text) c (text_given text) i)
      parsed-given text (some msg) sound e = route-given msg (λ p found. sound msg p e found)

      handle_message-given :
          (text : String) (msg : Value)
          → HasParams host Q text
          → host.parse text ≡ some msg
          → Keeps Inv (handle_message host run msg)
      unfolding handle_message
      handle_message-given text (str inner) sound e =
          parsed-given inner (host.parse inner) (sound.inner inner e) refl
      handle_message-given text undefined sound e = route-given undefined (λ p. sound.outer _ p e)
      handle_message-given text null sound e = route-given null (λ p. sound.outer _ p e)
      handle_message-given text (bool b) sound e = route-given (bool b) (λ p. sound.outer _ p e)
      handle_message-given text (num n) sound e = route-given (num n) (λ p. sound.outer _ p e)
      handle_message-given text (arr vs) sound e = route-given (arr vs) (λ p. sound.outer _ p e)
      handle_message-given text (obj fs) sound e = route-given (obj fs) (λ p. sound.outer _ p e)

      pub on_message-given :
          (text : String) (c : Client K H P)
          → HasParams host Q text
          → Inv c
          → Inv (on_message host run text c)
      unfolding on_message
      on_message-given text c sound i = elim (Option-cases (host.parse text)) [
        | inl bad ↦ rw (bad, on_message) i
        | inr (msg, good) ↦
            rw (good, on_message) ((handle_message-given text msg sound good).at c i)
      ]
