-- ===== src/Central/Selection.antt =====
-- `CentralSystem`: the answers of the server, the choice of a station and of a connector, and the
-- notifications. The part of an async method after its `await` is the clause that takes the outcome.
use ocpp_server.Base.{
  String, Bool, not, ◌&&◌, Option, none, some, List, [], ◌∷◌, if◌then◌else◌, ◌<>◌,
}
use ocpp_server.Js.{
  Number, Value, undefined, num, str, arr, obj, cons, end, field, truthy, same_number, strict_eq,
  is_nullish, Done, lift, gets, try_catch, ◌>>=◌, ◌>>◌, modify, done, when, Host, prop, text_of,
  read, elements, to_number,
}
use ocpp_server.Rpc.State.{Settled, resolved, rejected, nat_key, string_key}
use ocpp_server.Central.State.{
  Await, stations_list, station_change, connector_change, World, Act, on_page, station_value,
}
use ocpp_server.Central.View.{
  log, log_error, update_station_dropdown, some_connectors, update_connectors_dropdown,
  set_first_connector_in_dropdown, update_station_status, update_connector_status,
  update_meter_values, update_station_info, update_connector_info,
}
use ocpp_server.Rpc.Web
use ocpp_server.Rpc.Web.{call}

-- `sends` says whether the socket takes the request, if one is made.
unfoldable pub rpc_call : (sends : Bool) → String → Value → Await → World → World
rpc_call sends method params k = Web.call sends method params k

-- `new Map().set(key, value)` over any keys. Objects from different texts are different keys.
unfoldable pub set_key : Value → Value → List (Value × Value) → List (Value × Value)
set_key k v [] = (k, v) ∷ []
set_key k v ((j, w) ∷ m) = if strict_eq j k then (j, v) ∷ m else (j, w) ∷ set_key k v m

module _ (host : Host) where
  abbrev parse_text : String → Value
  parse_text text = elim (host.parse text) [ none ↦ str text | some v ↦ v ]

  abbrev parse_result : Value → Value
  parse_result (str text) = parse_text text
  parse_result result = result

  unfoldable pub parse_response : Value → Value
  parse_response response =
      if truthy response && truthy (read host response "result")
      then parse_result (read host response "result")
      else response

  unfoldable pub cache_station : Value → Act Done
  unfolding set_key
  cache_station station = do
    id ← lift (prop host station "id")
    modify (on_page (λ p. record p { stations = set_key id station p.stations }))

  unfoldable pub cache_each : List Value → Act Done
  unfolding cache_station
  cache_each [] = done
  cache_each (station ∷ rest) = cache_station station >> cache_each rest

  unfoldable pub cache_stations_data : Value → Act Done
  unfolding cache_each
  cache_stations_data stations = do
    modify (on_page (λ p. record p { stations = [] }))
    vs ← lift (elements stations)
    cache_each vs

  -- `loadStationsList`, up to its `await` and after it.
  unfoldable pub load_stations_list : (sends : Bool) → World → World
  unfolding rpc_call log
  load_stations_list sends w =
      rpc_call sends "GetStations" (obj end) stations_list (log "Загрузка списка станций..." w)

  unfoldable pub stations_list_loaded : Settled → Act Done
  unfolding parse_response log_error
  stations_list_loaded (rejected e) = modify (log_error "Ошибка загрузки списка станций")
  stations_list_loaded (resolved response) =
      try_catch
        (do
          stations ← lift (prop host (parse_response response) "stations")
          update_station_dropdown host stations
          cache_stations_data stations)
        (λ e. modify (log_error "Ошибка загрузки списка станций"))

  -- `handleStationChange`
  unfoldable pub handle_station_change : (sends : Bool) → String → World → World
  unfolding rpc_call log
  handle_station_change sends station_id w =
      rpc_call sends "GetStationStatus" (obj (field "station_id" (str station_id) end))
        (station_change station_id) (log ("Выбор станции: " <> station_id) w)

  -- `station_data.connectors[0]`
  abbrev pub first_of : Value → Value
  first_of (arr (cons v vs)) = v
  first_of _ = undefined

  -- What follows `this.current_station = station_id`.
  unfoldable pub show_station : Value → Act Done
  show_station station_data = do
    update_station_info host station_data
    connectors ← lift (prop host station_data "connectors")
    update_connectors_dropdown host connectors
    when (some_connectors host connectors) (do
      modify set_first_connector_in_dropdown
      update_connector_info host (first_of connectors))

  abbrev pub station_failed : String → World → World
  station_failed station_id = log_error ("Ошибка загрузки данных станций " <> station_id)

  unfoldable pub station_changed : String → Settled → Act Done
  unfolding parse_response log_error
  station_changed station_id (rejected e) = modify (station_failed station_id)
  station_changed station_id (resolved response) =
      try_catch
        (do
          modify (on_page (λ p. record p { current_station = some station_id }))
          show_station (parse_response response))
        (λ e. modify (station_failed station_id))

  -- `handleConnectorChange`
  unfoldable pub handle_connector_change : (sends : Bool) → Number → World → World
  unfolding rpc_call log
  handle_connector_change sends connector_id w =
      rpc_call sends "GetConnectorStatus"
        (obj (field "station_id" (station_value w) (field "connector_id" (num connector_id) end)))
        (connector_change connector_id)
        (log ("Выбор коннектора: " <> host.number_text connector_id) w)

  abbrev pub connector_failed : Number → World → World
  connector_failed connector_id =
      log_error ("Ошибка загрузки данных коннектора " <> host.number_text connector_id)

  unfoldable pub connector_changed : Number → Settled → Act Done
  unfolding parse_response log_error
  connector_changed connector_id (rejected e) = modify (connector_failed connector_id)
  connector_changed connector_id (resolved response) =
      try_catch
        (do
          modify (on_page (λ p. record p { current_connector = some connector_id }))
          update_connector_info host (parse_response response))
        (λ e. modify (connector_failed connector_id))

  -- `handleStatusNotification`. The class has no field `connector_id`, so `this.connector_id` is
  -- `undefined`.
  unfoldable pub handle_status_notification : Value → Act Done
  unfolding log
  handle_status_notification event = do
    modify (log ("StatusNotification: " <> host.stringify event))
    station_id ← lift (prop host event "station_id")
    here ← gets (λ w. strict_eq station_id (station_value w))
    when here (do
      update_station_status host (read host event "status")
      when (strict_eq (read host event "connector_id") undefined)
          (modify (update_connector_status host (read host event "connectorStatus"))))

  -- `a == this.current_connector`
  abbrev pub is_connector : Value → Option Number → Bool
  is_connector v none = is_nullish v
  is_connector v (some n) = not (is_nullish v) && same_number (to_number host v) n

  unfoldable pub handle_meter_values : Value → Act Done
  unfolding log
  handle_meter_values event = do
    modify (log ("MeterValues: " <> host.stringify event))
    station_id ← lift (prop host event "station_id")
    here ← gets (λ w.
        strict_eq station_id (station_value w)
        && is_connector (read host event "connector_id") w.page.current_connector)
    when here (update_meter_values host (read host event "values"))

  unfoldable pub handle_heartbeat : Value → Act Done
  unfolding log
  handle_heartbeat event = do
    station_id ← lift (prop host event "station_id")
    modify (log ("Heartbeat received from station: " <> text_of host station_id))
