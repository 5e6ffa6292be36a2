-- ===== src/Rpc/Emitter/Registration.antt =====
-- What registering and removing a handler does to the handlers that an event runs.
use ocpp_server.Base.{
  true, ℕ, suc, length, get_elem?, some, sym, length-append, String, ◌≡◌, refl, ap, ◌∙◌, ◌≢◌, inl,
  inr, List, [], ◌∷◌, ◌++◌, arith, ◌==◌, eq_iff, eq_refl, if◌then◌else◌, Bool-cases, All,
}
use ocpp_server.Base.Dict.{Key}
use ocpp_server.Base.Dict
use ocpp_server.Js.{Value, Eff, Done}
use ocpp_server.Rpc.State.{Client, string_key}
use mathlib.Core.List.{append_assoc}
use ocpp_server.Rpc.Emitter.{handlers_of, handlers, on, off, splice_first, emit, run_each}

get_elem?-append :
    {A : Type 0} (x : A) (xs ys : List A) → get_elem? (xs ++ x ∷ ys) (length xs) ≡ some x
get_elem?-append x [] ys = refl
get_elem?-append x (w ∷ xs) ys = get_elem?-append x xs ys

module _ {H : Type 0} ⦃key : Key H⦄ where
  splice_first-append :
      (h : H) (hs : List H) → All (λ g. g ≢ h) hs → splice_first h (hs ++ h ∷ []) ≡ hs
  unfolding splice_first
  splice_first-append h [] a = ground (arith, key.same_iff h h)
  splice_first-append h (g ∷ hs) a = ground (arith, key.same_iff g h, splice_first-append h hs a.1)

module _ {K H P : Type 0} where
  -- A new handler runs last for its event, and other events run what they ran.
  pub handlers-on :
      (e f : String) (h : H) (c : Client K H P)
      → handlers f (on e h c) ≡ (if e == f then handlers e c ++ h ∷ [] else handlers f c)
  unfolding on
  handlers-on e f h c = elim (Bool-cases (Dict.has e c.event_handlers)) [
    | inl there ↦ rw there (
        rw (Dict.get-set e f (handlers e c ++ h ∷ []) c.event_handlers)
          (ground (arith, eq_iff e f)))
    | inr missing ↦
        let m = Dict.set e [] c.event_handlers in
        let old = Dict.has-get e c.event_handlers missing in
        rw missing (
          rw (Dict.get-set e e [] c.event_handlers, eq_refl e)
            (rw (Dict.get-set e f (h ∷ []) m, Dict.get-set e f [] c.event_handlers)
              (ground (arith, eq_iff e f, old))))
  ]

  module _ (run : H → Value → Eff (Client K H P) Done) where
    run_each-there :
        (e : String) (v : Value) (left index : ℕ) (h : H) (c : Client K H P)
        → get_elem? (handlers e c) index ≡ some h
        → run_each run e v (suc left) index c ≡ run_each run e v left (suc index) (run h v c).1
    unfolding run_each
    run_each-there e v left index h c there = rw (there, run_each) refl

    -- A single handler runs, whatever it does to the registrations.
    pub emit_single :
        (e : String) (v : Value) (h : H) (c : Client K H P)
        → Dict.has e c.event_handlers ≡ true
        → handlers e c ≡ h ∷ []
        → emit run e v c ≡ (run h v c).1
    unfolding emit run_each
    emit_single e v h c there is =
        rw (there, is) (run_each-there e v 0 0 h c (ap (λ hs. get_elem? hs 0) is))

    -- The handlers of a list, each once and in order.
    abbrev pub run_all : List H → Value → Client K H P → Client K H P
    run_all [] v c = c
    run_all (h ∷ hs) v c = run_all hs v (run h v c).1

    run_all-append :
        (hs gs : List H) (v : Value) (c : Client K H P)
        → run_all (hs ++ gs) v c ≡ run_all gs v (run_all hs v c)
    run_all-append [] gs v c = refl
    run_all-append (h ∷ hs) gs v c = run_all-append hs gs v (run h v c).1

    -- Where no handler registers or removes one, the loop runs the handlers that there were.
    module _
        (steady : (h : H) (v : Value) (c : Client K H P)
          → (run h v c).1.event_handlers ≡ c.event_handlers) where
      run_each-run_all :
          (e : String) (v : Value) (hs before : List H) (c : Client K H P)
          → handlers e c ≡ before ++ hs
          → run_each run e v (length hs) (length before) c ≡ run_all hs v c
      unfolding handlers run_each
      run_each-run_all e v [] before c is = refl
      run_each-run_all e v (h ∷ hs) before c is =
          let d = (run h v c).1 in
          let moved : handlers e d ≡ (before ++ h ∷ []) ++ hs =
            ap (λ m. handlers_of (Dict.get e m)) (steady h v c)
            ∙ is
            ∙ sym (append_assoc before (h ∷ []) hs) in
          run_each-there e v (length hs) (length before) h c
            (ap (λ gs. get_elem? gs (length before)) is ∙ get_elem?-append h before hs)
          ∙ ap (λ n. run_each run e v (length hs) n d)
              (omega (arith, length-append before (h ∷ [])))
          ∙ run_each-run_all e v hs (before ++ h ∷ []) d moved

      emit_lem :
          (e : String) (v : Value) (c : Client K H P) → emit run e v c ≡ run_all (handlers e c) v c
      unfolding emit handlers
      emit_lem e v c = elim (Bool-cases (Dict.has e c.event_handlers)) [
        | inl there ↦ rw there (run_each-run_all e v (handlers e c) [] c refl)
        | inr missing ↦ rw missing (rw (Dict.has-get e c.event_handlers missing, handlers))
      ]

      -- If no handler registers or removes handlers, an event runs the handlers registered for it
      -- in the order of registration, the newest after all the others, whatever these throw.
      pub emit-on :
          (e : String) (v : Value) (h : H) (c : Client K H P)
          → emit run e v (on e h c) ≡ (run h v (run_all (handlers e c) v (on e h c))).1
      emit-on e v h c =
          let same : handlers e (on e h c) ≡ handlers e c ++ h ∷ [] =
            handlers-on e e h c ∙ rw (eq_refl e) in
          emit_lem e v (on e h c)
          ∙ ap (λ hs. run_all hs v (on e h c)) same
          ∙ run_all-append (handlers e c) (h ∷ []) v (on e h c)

  module _ ⦃key : Key H⦄ where
    -- Removing a handler takes away its first registration for the event, and no other.
    pub handlers-off :
        (e f : String) (h : H) (c : Client K H P)
        → handlers f (off e h c) ≡ (if e == f then splice_first h (handlers e c) else handlers f c)
    unfolding off splice_first handlers
    handlers-off e f h c = elim (Bool-cases (Dict.has e c.event_handlers)) [
      | inl there ↦ rw there (
          rw (Dict.get-set e f (splice_first h (handlers e c)) c.event_handlers)
            (ground (arith, eq_iff e f)))
      | inr missing ↦
          let old = Dict.has-get e c.event_handlers missing in
          rw missing (ground (arith, eq_iff e f, old))
    ]

    -- Removing a handler right after it was registered restores what the event runs, if it was not
    -- registered for the event before.
    pub off-on :
        (e f : String) (h : H) (c : Client K H P)
        → All (λ g. g ≢ h) (handlers e c)
        → handlers f (off e h (on e h c)) ≡ handlers f c
    off-on e f h c new = ground (
      arith,
      handlers-off e f h (on e h c),
      handlers-on e e h c,
      handlers-on e f h c,
      eq_refl e,
      eq_iff e f,
      splice_first-append h (handlers e c) new,
    )
