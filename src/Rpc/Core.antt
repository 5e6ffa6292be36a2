-- ===== src/Rpc/Core.antt =====
-- What both clients do: sending, messages, opening, errors, `disconnect`, and the reactions of
-- settled promises, which run when the handler of an event has ended.
use ocpp_server.Base.{
  not, ◌&&◌, ℕ, zero, suc, String, Bool, true, false, Option, none, some, [], ◌∷◌, ◌++◌,
  if◌then◌else◌,
}
use ocpp_server.Base.Dict.{Key}
use ocpp_server.Base.Dict
use ocpp_server.Js.{
  throw, when, nat, Value, undefined, num, str, truthy, type_error, invalid_state, fault, error,
  returned, thrown, Eff, Done, lift, gets, ◌>>=◌, ◌>>◌, modify, done, Host, prop, text_of,
}
use ocpp_server.Js.Json.{json_of, has_text}
use ocpp_server.Rpc.State.{
  Client, Request, Settled, resolved, rejected, settle, nat_key, string_key,
}
use ocpp_server.Rpc.Emitter.{emit}

-- What the text that JSON.stringify makes of a request holds.
abbrev pub next_request : ℕ → String → Value → Request
next_request id method params = record {
  jsonrpc = "2.0";
  id = id;
  method = method;
  params = json_of params;
}

module _ {K H P : Type 0} where
  -- `this.ws.send(…)`. A socket that is not open yet throws: `sends` says whether it takes the text.
  unfoldable pub send : Bool → Request → Eff (Client K H P) Done
  send sends r c = elim c.ws [
    | none ↦ (thrown (fault type_error), c)
    | some socket ↦
        if sends
        then (returned tt, record c { sent = c.sent ++ r ∷ [] })
        else (thrown (fault invalid_state), c)
  ]

  -- `const id = ++this.requestId; this.pendingRequests.set(id, …)`
  unfoldable pub enter : K → Client K H P → Client K H P
  enter k c = record c {
    request_id = suc c.request_id;
    pending_requests = Dict.set (suc c.request_id) k c.pending_requests;
  }

  -- `pendingRequests.get(id)`. The keys are numbers, so no other value finds one.
  unfoldable pub pending : Value → Client K H P → Option (ℕ × K)
  pending (num (nat n)) c = elim (Dict.get n c.pending_requests) [
    | none ↦ none
    | some k ↦ some (n, k)
  ]
  pending _ c = none

  -- The keys of `eventHandlers` are texts, so no other value has handlers.
  unfoldable pub emit_value :
      (H → Value → Eff (Client K H P) Done) → Value → Value → Client K H P → Client K H P
  emit_value run (str event) param c = emit run event param c
  emit_value run _ param c = c

  module _ (host : Host) where
    -- The answer to the request `n`, which `k` waits on. `new Error` throws where the error has no text.
    unfoldable pub answer : Value → ℕ → K → Eff (Client K H P) Done
    answer msg n k = do
      modify (λ c. record c { pending_requests = Dict.delete n c.pending_requests })
      e ← lift (prop host msg "error")
      when (truthy e && not (has_text e)) (throw (fault type_error))
      modify (settle k (if truthy e then rejected (error (text_of host e)) else resolved msg))

    module _ (run : H → Value → Eff (Client K H P) Done) where
      unfoldable pub notify : Value → Eff (Client K H P) Done
      unfolding emit_value
      notify msg = do
        method ← lift (prop host msg "method")
        if truthy method
            then (do params ← lift (prop host msg "params"); modify (emit_value run method params))
            else done

      -- `handleMessage` from the test of `message.id` on.
      unfoldable pub route : Value → Eff (Client K H P) Done
      unfolding notify answer pending
      route msg = do
        id ← lift (prop host msg "id")
        found ← gets (λ c. if truthy id then pending id c else none)
        elim found [ none ↦ notify msg | some (n, k) ↦ answer msg n k ]

      unfoldable pub handle_message : Value → Eff (Client K H P) Done
      unfolding route
      handle_message (str text) = elim (host.parse text) [
        | none ↦ modify (emit run "message" (str text))
        | some msg ↦ route msg
      ]
      handle_message msg = route msg

      -- `onmessage`: what is thrown on the way is written to the console.
      unfoldable pub on_message : String → Client K H P → Client K H P
      on_message text c = elim (host.parse text) [ none ↦ c | some msg ↦ (handle_message msg c).1 ]

  module _ (run : H → Value → Eff (Client K H P) Done) where
    unfoldable pub on_open : Client K H P → Client K H P
    on_open c =
        emit run "connected" undefined (record c { connected = true; reconnect_attempts = 0 })

    unfoldable pub on_error : Value → Client K H P → Client K H P
    on_error e c = emit run "error" e c

  unfoldable pub disconnect : Client K H P → Client K H P
  disconnect c =
      let d = record c { connected = false; reconnect_attempts = c.max_reconnect_attempts } in
      elim c.ws [ none ↦ d | some socket ↦ record d { closes = d.closes ++ socket ∷ [] } ]

  -- The reactions of settled promises, oldest first; what a reaction settles runs after them.
  unfoldable pub drain : (K → Settled → Eff (Client K H P) Done) → ℕ → Client K H P → Client K H P
  drain resume zero c = c
  drain resume (suc fuel) c = elim c.reactions [
    | [] ↦ c
    | (k, r) ∷ rest ↦ drain resume fuel (resume k r (record c { reactions = rest })).1
  ]
