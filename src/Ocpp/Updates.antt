-- ===== src/Ocpp/Updates.antt =====
-- `OCPPSystem`: what the notifications of the server change.
use ocpp_server.Base.{String, Bool, ◌&&◌, ◌||◌, Option, none, some, if◌then◌else◌}
use ocpp_server.Base.Dict.{Key}
use ocpp_server.Base.Dict
use ocpp_server.Js.{
  Value, undefined, str, arr, empty, cons, truthy, strict_eq, is_string, Eff, Done, lift, ◌>>=◌,
  modify, done, when, Host, prop, text_of, read, text_content, positive,
}
use ocpp_server.Rpc.State.{nat_key, string_key}
use ocpp_server.Ocpp.State.{Connector, Station, Screen, System, on_screen, optional}
use ocpp_server.Ocpp.View.{update_station_display, update_connector_status_display}

abbrev pub with_status : Value → Connector → Connector
with_status status connector = record connector { status = status }

abbrev pub put_station : String → Station → System → System
put_station id station s = record s { stations = Dict.set id station s.stations }

abbrev pub put_connector : String → Connector → Station → Station
put_connector id connector station = record station {
  connectors = Dict.set id connector station.connectors;
}

-- `this.stations[id].connectors[connector_id]`, where both are there.
unfoldable pub find_connector : String → String → System → Option (Station × Connector)
find_connector id connector_id s = elim (Dict.get id s.stations) [
  | none ↦ none
  | some station ↦ elim (Dict.get connector_id station.connectors) [
    | none ↦ none
    | some connector ↦ some (station, connector)
  ]
]

module _ (host : Host) where
  abbrev pub is_selected : Value → System → Bool
  is_selected id s = strict_eq (optional s.selected_station_id) id

  -- `connectorId.toString()`
  abbrev pub is_selected_connector : Value → Value → System → Bool
  is_selected_connector id connector_id s =
      is_selected id s
      && strict_eq (optional s.selected_connector_id) (str (text_of host connector_id))

  unfoldable pub update_station : Value → Value → System → System
  unfolding update_station_display
  update_station id status s = elim (Dict.get (text_of host id) s.stations) [
    | none ↦ s
    | some station ↦
        let s' = put_station (text_of host id) (record station { status = status }) s in
        if is_selected id s then update_station_display status s' else s'
  ]

  unfoldable pub update_connector : Value → Value → Value → System → System
  unfolding find_connector update_connector_status_display
  update_connector id connector_id status s =
      elim (find_connector (text_of host id) (text_of host connector_id) s) [
        | none ↦ s
        | some (station, connector) ↦
            let s' =
              put_station (text_of host id)
                (put_connector (text_of host connector_id) (with_status status connector) station)
                s in
            if is_selected_connector id connector_id s
            then update_connector_status_display status s'
            else s'
      ]

  -- `v[0]` of a value with a length; a character of a text has the fields that a text has.
  abbrev index_0 : Value → Value
  index_0 (arr (cons v vs)) = v
  index_0 (arr empty) = undefined
  index_0 v = if is_string v then v else read host v "0"

  -- `v && v.length > 0`
  abbrev is_filled : Value → Bool
  is_filled v = truthy v && positive host (read host v "length")

  -- What a sample changes, by its `context`.
  unfoldable pub sampled : Value → Value → Connector → Connector
  sampled context value connector =
      if strict_eq context (str "Transaction.Begin") || strict_eq context (str "Transaction.End")
      then record connector { meter = value }
      else (if strict_eq context (str "Sample.Periodic")
          then record connector { power = value }
          else connector)

  abbrev show_sample : Connector → Screen → Screen
  show_sample connector c = record c {
    connector_meter = text_content host connector.meter;
    connector_power = text_content host connector.power;
  }

  abbrev store_sample : Value → Value → Station → Connector → System → System
  store_sample id connector_id station connector s =
      let s' =
        put_station (text_of host id) (put_connector (text_of host connector_id) connector station)
          s in
      if is_selected_connector id connector_id s then on_screen (show_sample connector) s' else s'

  unfoldable pub update_connector_meter_values : Value → Value → Value → Eff System Done
  unfolding sampled find_connector
  update_connector_meter_values id connector_id meter_value s =
      elim (find_connector (text_of host id) (text_of host connector_id) s) [
        | none ↦ done s
        | some (station, connector) ↦
            (when (is_filled meter_value) (do
              samples ← lift (prop host (index_0 meter_value) "sampledValue")
              when (is_filled samples) (do
                value ← lift (prop host (index_0 samples) "value")
                context ← lift (prop host (index_0 samples) "context")
                modify (store_sample id connector_id station (sampled context value connector)))))
              s
      ]
