-- ===== src/Manager/Choosing.antt =====
-- `handleStationChange` after its `await`, for a station with connectors.
use ocpp_server.Base.{
  suc, ◌≡◌, refl, sym, ap, ◌∙◌, Bool, true, List, [], ◌∷◌, ◌++◌, map, arith, ltb, if◌then◌else◌,
  ◌<>◌, All,
}
use ocpp_server.Js.{
  Value, undefined, null, str, arr, obj, Elements, cons, items, length_items, truthy, returned,
  lift, ◌>>=◌, ◌>>◌, modify, Host, prop, text_of, read, text_content,
}
use mathlib.Core.List.{append-nil, append_assoc}
use ocpp_server.Rpc.State.{resolved, nat_key, string_key}
use ocpp_server.Central.State.{Choice, Label}
use ocpp_server.Central.Selection.{parse_response}
use ocpp_server.Manager.State.{ManagerUi, ManagerPage, ManagerWorld, with_ui}
use ocpp_server.Manager.View.{
  status_label, connector_option, append_connector_options, show_connectors, show_station_info,
}
use ocpp_server.Manager.Selection.{request_connector, offer_connectors, station_loaded}
use ocpp_server.Manager.Listing.{IsPresent, IsPresent-prop}

module _ (host : Host) where
  -- The entry of a connector.
  abbrev pub connector_entry : Value → Choice
  connector_entry connector = record {
    value = text_of host (read host connector "id");
    text = "Коннектор " <> text_of host (read host connector "id");
  }

  connector_option-choice :
      (v : Value) → IsPresent v → connector_option host v ≡ returned (connector_entry v)
  connector_option-choice undefined h = cc
  connector_option-choice null h = cc
  connector_option-choice (str s) h = refl
  connector_option-choice (arr vs) h = refl
  connector_option-choice (obj fs) h = refl
  connector_option-choice _ h = refl

  append_connector_options-map :
      (vs : List Value) (p : ManagerPage)
      → All IsPresent vs
      → append_connector_options host vs p ≡ (
        returned tt,
        with_ui
            (λ u. record u { connector_options = u.connector_options ++ map connector_entry vs })
            p,
      )
  unfolding append_connector_options
  append_connector_options-map [] p h =
      ap (λ cs. (returned tt, with_ui (λ u. record u { connector_options = cs }) p))
        (sym (append-nil p.ui.connector_options))
  append_connector_options-map (v ∷ vs) p (h, hs) =
      ap
        (λ r.
          (lift r >>= (λ choice.
              modify
                (with_ui (λ u. record u { connector_options = u.connector_options ++ choice ∷ [] }))
              >> append_connector_options host vs))
            p)
        (connector_option-choice v h)
      ∙ append_connector_options-map vs
          (with_ui
            (λ u. record u { connector_options = u.connector_options ++ connector_entry v ∷ [] }) p)
          hs
      ∙ ap (λ cs. (returned tt, with_ui (λ u. record u { connector_options = cs }) p))
          (append_assoc p.ui.connector_options (connector_entry v ∷ []) (map connector_entry vs))

  -- The part of the page that `updateStationInfo` changes, when the station has connectors.
  unfoldable informed : Value → Value → ManagerUi → ManagerUi
  informed d connectors u =
      let v =
        if host.has_class u.station_status.class_name "status--working"
        then record u { station_status = status_label host (read host d "status") }
        else u in
      let v' = record v { connectors_count = text_content host (read host connectors "length") } in
      if truthy (read host d "maxPower")
      then record v' { max_power = text_of host (read host d "maxPower") <> " кВт" }
      else v'

  show_station_info-returned :
      (d : Value) (cs : Elements) (p : ManagerPage)
      → IsPresent d
      → prop host d "connectors" ≡ returned (arr cs)
      → show_station_info host d p ≡ (returned tt, with_ui (informed d (arr cs)) p)
  unfolding show_station_info informed
  show_station_info-returned d cs p present has =
      rw (IsPresent-prop host d "status" present, has) (ground arith)

  -- The status that the page shows after the answer: that of the station, if the element that is
  -- looked for is there.
  abbrev pub status_after : Value → ManagerUi → Label
  status_after d u =
      if host.has_class u.station_status.class_name "status--working"
      then status_label host (read host d "status")
      else u.station_status

  informed-status :
      (d connectors : Value) (u : ManagerUi)
      → ((informed d connectors u).station_status ≡ status_after d u)
        × ((informed d connectors u).station_options ≡ u.station_options)
  unfolding informed
  informed-status d connectors u = (ground arith, ground arith)

  -- The page after the answer with the data of a station, but for the number of its connectors and its
  -- power.
  pub station_loaded-arr :
      (sends : Bool) (id msg c : Value) (cs : Elements) (w : ManagerWorld)
      → IsPresent (parse_response host msg)
      → prop host (parse_response host msg) "connectors" ≡ returned (arr (cons c cs))
      → All IsPresent (c ∷ items cs)
      → (u : ManagerUi) × (u.station_status ≡ status_after (parse_response host msg) w.page.ui)
        × (u.station_options ≡ w.page.ui.station_options)
        × (station_loaded host sends id (resolved msg) w ≡ (
          returned tt,
          request_connector host sends (read host c "id") (record w {
            page = record (w.page) {
              current_station = id;
              ui = record u { connector_options = map connector_entry (c ∷ items cs) };
            };
          }),
        ))
  unfolding station_loaded offer_connectors show_connectors
  station_loaded-arr sends id msg c cs w present has all_present =
      let d = parse_response host msg in
      let u = informed d (arr (cons c cs)) w.page.ui in
      let emptied = record w.page {
        current_station = id;
        ui = record u { connector_options = [] };
      } in
      let some_there : ltb 0 (suc (length_items cs)) ≡ true = ground arith in
      (
        u,
        (informed-status d (arr (cons c cs)) w.page.ui).0,
        (informed-status d (arr (cons c cs)) w.page.ui).1,
        rw
            (
              show_station_info-returned d (cons c cs) (record w.page { current_station = id })
                  present has,
              has,
              some_there,
              append_connector_options-map (c ∷ items cs) emptied all_present,
              IsPresent-prop host c "id" all_present.0,
            )
            refl,
      )
