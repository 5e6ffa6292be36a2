-- ===== src/Ocpp/Shown.antt =====
-- The statuses on the page are those of the chosen station and connector.
use ocpp_server.Base.{
  String, ◌≡◌, refl, ap, inl, inr, true, false, Option, none, some, List, [], ◌∷◌, ◌++◌, map, arith,
  ◌==◌, eq_iff, if◌then◌else◌, ◌<>◌, Bool-cases, Option-cases,
}
use ocpp_server.Base.Dict.{Key}
use ocpp_server.Base.Dict
use ocpp_server.Js.{nat, Value, str, returned, Host, text_of}
use ocpp_server.Rpc.State.{nat_key, string_key}
use ocpp_server.Ocpp.State.{Connector, Station, Screen, System}
use ocpp_server.Ocpp.View.{
  update_station_display, station_display, handle_station_select, station_at,
  update_connectors_list, add_log, choice,
}
use ocpp_server.Ocpp.Updates.{put_station, is_selected, update_station}

unfoldable pub current_station : System → Option Station
current_station s = elim s.selected_station_id [ none ↦ none | some id ↦ Dict.get id s.stations ]

abbrev Shows : Option Station → Screen → Type 0
Shows none c = Unit
Shows (some station) c =
    (c.station_text ≡ (station_display station.status).0)
    × (c.station_icon ≡ (station_display station.status).1)

-- The status on the page is that of the chosen station, if there is one.
unfoldable pub IsStationShown : System → Type 0
IsStationShown s = Shows (current_station s) s.screen

-- The options of a choice of connectors carry the keys.
values_of_choices :
    (m : List (String × Connector))
    → map (λ c. c.value) (map (λ e. choice e.0 ("Коннектор " <> e.0)) m) ≡ Dict.keys m
values_of_choices [] = refl
values_of_choices (e ∷ m) = ap (λ ks. e.0 ∷ ks) (values_of_choices m)

module _ (host : Host) where
  -- Another station in the table changes nothing, the chosen one is the new one.
  current_station-put :
      (id : String) (station : Station) (s : System)
      → current_station (put_station id station s)
        ≡ (if is_selected host (str id) s then some station else current_station s)
  unfolding current_station
  current_station-put id station s = elim (Option-cases s.selected_station_id) [
    | inl chosen ↦ rw chosen refl
    | inr (k, chosen) ↦
        rw (chosen, Dict.get-set id k station s.stations) (ground (arith, eq_iff id k, eq_iff k id))
  ]

  shown_new :
      (id : String) (status : Value) (station : Station) (s : System)
      → is_selected host (str id) s ≡ true
      → IsStationShown
          (update_station_display status (put_station id (record station { status = status }) s))
  unfolding IsStationShown update_station_display current_station
  shown_new id status station s here =
      rw (current_station-put id (record station { status = status }) s, here) (refl, refl)

  shown_old :
      (id : String) (station : Station) (s : System)
      → is_selected host (str id) s ≡ false
      → IsStationShown s
      → IsStationShown (put_station id station s)
  unfolding IsStationShown
  shown_old id station s away shown = rw (current_station-put id station s, away) shown

  update_station-absent :
      (id : String) (status : Value) (s : System)
      → Dict.get id s.stations ≡ none
      → update_station host (str id) status s ≡ s
  unfolding update_station text_of
  update_station-absent id status s absent = rw (absent, update_station) refl

  update_station-present :
      (id : String) (status : Value) (s : System) (station : Station)
      → Dict.get id s.stations ≡ some station
      → let s' = put_station id (record station { status = status }) s in
        update_station host (str id) status s
        ≡ (if is_selected host (str id) s then update_station_display status s' else s')
  unfolding update_station text_of
  update_station-present id status s station there = rw (there, update_station) refl

  -- If the status on the page is that of the chosen station, then it is so after a new status of any
  -- station named by a text.
  pub update_station-IsStationShown :
      (id : String) (status : Value) (s : System)
      → IsStationShown s
      → IsStationShown (update_station host (str id) status s)
  update_station-IsStationShown id status s shown = elim (Option-cases (Dict.get id s.stations)) [
    | inl absent ↦ rw (update_station-absent id status s absent) shown
    | inr (station, there) ↦
        rw (update_station-present id status s station there)
          (elim (Bool-cases (is_selected host (str id) s)) [
            | inl here ↦ rw here (shown_new id status station s here)
            | inr away ↦ rw away (shown_old id (record station { status = status }) s away shown)
          ])
  ]

  abbrev chosen_system : String → Station → System → System
  chosen_system id station s = record s {
    selected_station_id = some id;
    screen = record (s.screen) {
      station_id = id <> " - " <> text_of host station.name;
      count_text = "Connector count: " <> host.number_text (nat station.connector_count);
      power_text = "Максимальная мощность: " <> host.number_text (nat station.max_power) <> " kW";
      station_text = (station_display station.status).0;
      station_icon = (station_display station.status).1;
      station_info = "flex";
      connector_select =
          choice "" "-- Выберите коннектор --"
          ∷ map (λ e. choice e.0 ("Коннектор " <> e.0)) station.connectors;
      connector_selector = "block";
      log_content = s.screen.log_content ++ ("Выбрана станция: " <> id) ∷ [];
    };
  }

  handle_station_select-chosen :
      (id : String) (station : Station) (s : System)
      → id == "" ≡ false
      → Dict.get id s.stations ≡ some station
      → handle_station_select host id s ≡ (returned tt, chosen_system id station s)
  unfolding handle_station_select station_at update_connectors_list update_station_display add_log
      Dict.get text_of station_display
  handle_station_select-chosen id station s named there = rw (named, there) (rw there refl)

  -- A station that is in the table: its data is shown, its connectors are offered, and the connector
  -- chosen before stays chosen.
  pub handle_station_select_lem :
      (id : String) (station : Station) (s : System)
      → id == "" ≡ false
      → Dict.get id s.stations ≡ some station
      → let r = handle_station_select host id s in
        (r.0 ≡ returned tt)
        × (r.1.selected_station_id ≡ some id)
        × IsStationShown r.1
        × (map (λ c. c.value) r.1.screen.connector_select ≡ "" ∷ Dict.keys station.connectors)
        × (r.1.selected_connector_id ≡ s.selected_connector_id)
  unfolding IsStationShown current_station
  handle_station_select_lem id station s named there =
      rw (handle_station_select-chosen id station s named there) (
        refl,
        refl,
        rw there (refl, refl),
        ap (λ ks. "" ∷ ks) (values_of_choices station.connectors),
        refl,
      )
