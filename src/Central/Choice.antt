-- ===== src/Central/Choice.antt =====
-- The choice of a station and of a connector, and the list of stations.
use ocpp_server.Base.{
  ℕ, String, ◌≡◌, refl, ap, ◌∙◌, false, Option, some, List, [], ◌∷◌, ◌<>◌, length,
}
use ocpp_server.Base.Dict.{Key}
use ocpp_server.Base.Dict
use ocpp_server.Js.{
  Number, nat, Value, num, truthy, is_string, returned, Keeps, Keeps-try_catch, Keeps-modify, Host,
  prop,
}
use ocpp_server.Rpc.State.{resolved, nat_key, string_key}
use ocpp_server.Central.State.{Await, station_change, World, on_page}
use ocpp_server.Central.View.{add_log_entry}
use ocpp_server.Central.Selection.{parse_response, show_station, station_failed, station_changed}
use ocpp_server.Rpc.Core.{drain}
use ocpp_server.Central.Events.{resume, run, socket_message, Io, handle, step}
use ocpp_server.Rpc.Invariant.{IsValid}
use ocpp_server.Rpc.Answers.{on_message-answer, outstanding, forget, verdict}
use ocpp_server.Rpc.Pending.{get-delete}
use ocpp_server.Central.Settling.{resume-Keeps}
use mathlib.Core.Path.{fun_ext}
use ocpp_server.Central.Blind.{IsTolerant, IsBlind, log_error-Inv, show_station-Keeps}

-- The choices of the page.
abbrev pub Chosen : Option String → Option Number → World → Type 0
Chosen station connector w =
    (w.page.current_station ≡ station) × (w.page.current_connector ≡ connector)

Chosen-tolerant :
    (station : Option String) (connector : Option Number) → IsTolerant (Chosen station connector)
unfolding add_log_entry
Chosen-tolerant station connector = record { shows = λ u w same i. i; logs = λ text kind w i. i }

pending-blind : (m : List (ℕ × Await)) → IsBlind (λ w. w.pending_requests ≡ m)
unfolding add_log_entry
pending-blind m = record {
  tolerant = record { shows = λ u w same i. i; logs = λ text kind w i. i };
  pages = λ p w same i. i;
}

module _ (host : Host) where
  -- An answer to the request of `handleStationChange` that is no error makes its station the current
  -- one, whatever it holds and whatever was chosen since the request; the current connector stays
  -- what it was.
  pub station_changed_lem :
      (id : String) (response : Value) (w : World)
      → Chosen (some id) w.page.current_connector (station_changed host id (resolved response) w).1
  unfolding station_changed
  station_changed_lem id response w =
      (Keeps-try_catch _ _ (shown) (λ e. Keeps-modify _ (failing))).at
        (on_page (λ p. record p { current_station = some id }) w) (refl, refl)
    where
      Inv : World → Type 0
      Inv = Chosen (some id) w.page.current_connector

      shown : Keeps Inv (show_station host (parse_response host response))
      shown =
          show_station-Keeps Inv (Chosen-tolerant (some id) w.page.current_connector) host
            (parse_response host response)

      failing : (v : World) → Inv v → Inv (station_failed host id v)
      failing v i =
          log_error-Inv Inv (Chosen-tolerant (some id) w.page.current_connector)
            ("Ошибка загрузки данных станций " <> id) v i

  module _ (w : World) (valid : IsValid w) (quiet : w.reactions ≡ []) (n : ℕ) (id text : String)
      (msg e : Value) (parsed : host.parse text ≡ some msg) (whole : is_string msg ≡ false)
      (numbered : prop host msg "id" ≡ returned (num (nat n)))
      (sound : prop host msg "error" ≡ returned e)
      (waits : Dict.get n w.pending_requests ≡ some (station_change id)) where
    settled : World
    settled = record w {
      pending_requests = Dict.delete n w.pending_requests;
      reactions = (station_change id, verdict host msg e) ∷ [];
    }

    handled : (io : Io) → truthy e ≡ false → handle host io (socket_message text) w ≡ settled
    unfolding handle settled
    handled io fine =
        on_message-answer host (run host io.sends) w valid quiet n (station_change id) text msg e
          parsed whole numbered sound (rw fine refl) waits

    answered : World
    answered = record w { pending_requests = Dict.delete n w.pending_requests; reactions = [] }

    stepped :
        (io : Io)
        → truthy e ≡ false
        → step host io (socket_message text) w ≡ (station_changed host id (resolved msg) answered).1
    unfolding step drain resume settled answered
    stepped io fine =
        ap (λ v. drain (resume host) (length v.reactions) v) (handled io fine) ∙ rw fine

    -- From the frame to the page: when the answer to a choice of a station arrives with no error, the
    -- station of that request becomes the current one, the current connector stays, and the request
    -- waits no more; the other requests wait as before.
    pub answer_chooses :
        (io : Io)
        → truthy e ≡ false
        → let v = step host io (socket_message text) w in
          Chosen (some id) w.page.current_connector v × (outstanding v ≡ forget n (outstanding w))
    unfolding answered station_changed resume
    answer_chooses io fine =
        rw (stepped io fine)
          (station_changed_lem id msg answered, fun_ext λ j. rw forgotten (left j))
      where
        forgotten :
            (station_changed host id (resolved msg) answered).1.pending_requests
            ≡ Dict.delete n w.pending_requests
        forgotten =
            (resume-Keeps _ (pending-blind (Dict.delete n w.pending_requests)) host
                (station_change id) (resolved msg)).at
              answered refl

        left : (j : ℕ) → Dict.get j (Dict.delete n w.pending_requests) ≡ forget n (outstanding w) j
        left j = get-delete 0 w.request_id n j w.pending_requests valid.ids
