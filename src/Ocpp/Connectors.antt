-- ===== src/Ocpp/Connectors.antt =====
-- The status of a connector on the page of `OCPPSystem` is that of the chosen connector.
use ocpp_server.Base.{
  String, ◌≡◌, refl, ap, inl, inr, ◌&&◌, Option, none, some, arith, ◌==◌, eq_iff, if◌then◌else◌,
  Bool-cases, Option-cases,
}
use ocpp_server.Base.Dict.{Key}
use ocpp_server.Base.Dict
use ocpp_server.Js.{Value, str, Host, text_of}
use ocpp_server.Rpc.State.{nat_key, string_key}
use ocpp_server.Central.State.{Label}
use ocpp_server.Ocpp.State.{Connector, Station, System}
use ocpp_server.Ocpp.View.{update_connector_status_display, connector_label}
use ocpp_server.Ocpp.Updates.{
  with_status, put_station, put_connector, find_connector, is_selected_connector, update_connector,
}

abbrev pair_second : Option (Station × Connector) → Option Connector
pair_second none = none
pair_second (some (station, connector)) = some connector

abbrev chosen_in : Option String → Option String → System → Option (Station × Connector)
chosen_in (some id) (some connector_id) s = find_connector id connector_id s
chosen_in _ _ s = none

-- The connector that is chosen, if the chosen station has it.
unfoldable pub current_connector : System → Option Connector
current_connector s = pair_second (chosen_in s.selected_station_id s.selected_connector_id s)

abbrev Labels : Option Connector → Label → Type 0
Labels none label = Unit
Labels (some connector) label = label ≡ connector_label connector.status

-- The status of a connector on the page is that of the chosen one, if there is one.
unfoldable pub IsConnectorShown : System → Type 0
IsConnectorShown s = Labels (current_connector s) s.screen.connector_status

found_in :
    (id connector_id : String) (s : System) (station : Station) (connector : Connector)
    → find_connector id connector_id s ≡ some (station, connector)
    → (Dict.get id s.stations ≡ some station)
      × (Dict.get connector_id station.connectors ≡ some connector)
unfolding find_connector
found_in id connector_id s station connector e = ground arith

abbrev with_connector : String → String → Connector → Station → System → System
with_connector id connector_id connector station s =
    put_station id (put_connector connector_id connector station) s

abbrev peek : String → Option Station → Option Connector
peek b none = none
peek b (some station) = Dict.get b station.connectors

find_connector-peek :
    (a b : String) (s : System)
    → pair_second (find_connector a b s) ≡ peek b (Dict.get a s.stations)
unfolding find_connector
find_connector-peek a b s = ground arith

-- A connector put in the place of one that is there is found there, and nowhere else.
find_connector-put :
    (id connector_id a b : String) (station : Station) (old connector : Connector) (s : System)
    → find_connector id connector_id s ≡ some (station, old)
    → pair_second (find_connector a b (with_connector id connector_id connector station s)) ≡ (
        if id == a && connector_id == b then some connector else pair_second (find_connector a b s))
find_connector-put id connector_id a b station old connector s e =
    let there = found_in id connector_id s station old e in
    let station' : Station = put_connector connector_id connector station in
    rw
      (
        find_connector-peek a b s,
        find_connector-peek a b (with_connector id connector_id connector station s),
        Dict.get-set id a station' s.stations,
      )
      (elim (Bool-cases (id == a)) [
        | inl same ↦
            rw
              (
                same,
                ← (eq_iff id a).0 same,
                there.0,
                Dict.get-set connector_id b connector station.connectors,
              )
              refl
        | inr away ↦ rw away refl
      ])

eq_comm : (s t : String) → (s == t) ≡ (t == s)
eq_comm s t = ground (arith, eq_iff s t, eq_iff t s)

module _ (host : Host) where
  current_connector-put :
      (id : String) (connector_id : Value) (station : Station) (old connector : Connector)
      (s : System)
      → find_connector id (text_of host connector_id) s ≡ some (station, old)
      → current_connector (with_connector id (text_of host connector_id) connector station s) ≡ (
          if is_selected_connector host (str id) connector_id s
          then some connector
          else current_connector s)
  unfolding current_connector find_connector
  current_connector-put id connector_id station old connector s e =
      elim (Option-cases s.selected_station_id) [
        | inl none_chosen ↦ rw none_chosen refl
        | inr (a, chosen) ↦ elim (Option-cases s.selected_connector_id) [
          | inl none_chosen ↦ rw (chosen, none_chosen) (ground arith)
          | inr (b, picked) ↦
              let name = text_of host connector_id in
              rw (chosen, picked, eq_comm a id, eq_comm b name)
                (find_connector-put id name a b station old connector s e)
        ]
      ]

  chosen_in-display :
      (a b : Option String) (status : Value) (s : System)
      → chosen_in a b (update_connector_status_display status s) ≡ chosen_in a b s
  unfolding find_connector update_connector_status_display
  chosen_in-display (some a) (some b) status s = refl
  chosen_in-display (some a) none status s = refl
  chosen_in-display none b status s = refl

  current_connector-display :
      (status : Value) (s : System)
      → current_connector (update_connector_status_display status s) ≡ current_connector s
  unfolding current_connector update_connector_status_display
  current_connector-display status s =
      ap pair_second (chosen_in-display s.selected_station_id s.selected_connector_id status s)

  label_of_display :
      (status : Value) (s : System)
      → (update_connector_status_display status s).screen.connector_status ≡ connector_label status
  unfolding update_connector_status_display
  label_of_display status s = refl

  put_shown_label :
      (id : String) (connector_id status : Value) (station : Station) (old : Connector) (s : System)
      → find_connector id (text_of host connector_id) s ≡ some (station, old)
      → IsConnectorShown s
      → let s' = with_connector id (text_of host connector_id) (with_status status old) station s in
        IsConnectorShown (
          if is_selected_connector host (str id) connector_id s
          then update_connector_status_display status s'
          else s')
  unfolding IsConnectorShown
  put_shown_label id connector_id status station old s e shown =
      elim (Bool-cases (is_selected_connector host (str id) connector_id s)) [
        | inl here ↦
            let s' =
              with_connector id (text_of host connector_id) (with_status status old) station s in
            rw
              (
                here,
                current_connector-display status s',
                current_connector-put id connector_id station old (with_status status old) s e,
                here,
              )
              (label_of_display status s')
        | inr away ↦ rw away (
            rw
              (current_connector-put id connector_id station old (with_status status old) s e, away)
              shown)
      ]

  -- If the status of a connector on the page is that of the chosen one, then it is so after a new
  -- status of any connector of a station named by a text.
  pub update_connector-IsConnectorShown :
      (id : String) (connector_id status : Value) (s : System)
      → IsConnectorShown s
      → IsConnectorShown (update_connector host (str id) connector_id status s)
  unfolding update_connector text_of
  update_connector-IsConnectorShown id connector_id status s shown =
      elim (Option-cases (find_connector id (text_of host connector_id) s)) [
        | inl absent ↦ rw (absent, update_connector) shown
        | inr ((station, old), e) ↦
            rw (e, update_connector) (put_shown_label id connector_id status station old s e shown)
      ]
