-- ===== src/Manager/Selection.antt =====
-- `StationManager`: the list of stations, the choice of a station and of a connector, and the
-- notifications. A method that is called within another one goes on by its own promise.
use ocpp_server.Base.{Bool, not, ◌&&◌, List, [], ◌∷◌, ◌<>◌}
use ocpp_server.Js.{
  Value, obj, end, field, truthy, strict_eq, Eff, Done, lift, gets, try_catch, ◌>>=◌, ◌>>◌, modify,
  done, when, Host, prop, text_of, read, elements, positive,
}
use ocpp_server.Rpc.State.{Settled, resolved, rejected, nat_key, string_key}
use ocpp_server.Rpc.Monitor.{call}
use ocpp_server.Central.Selection.{parse_response, set_key, first_of}
use ocpp_server.Manager.State.{
  ManagerPage, stations_list, station_change, connector_change, ManagerWorld, on_manager,
  on_page_act,
}
use ocpp_server.Manager.View.{
  write_info, write_error, update_stations_dropdown, is_listed, show_connectors, show_station_info,
  show_connector_info, show_station_status, show_connector_status, show_meter_values,
}

module _ (host : Host) where
  unfoldable pub cache_stations : List Value → Eff ManagerPage Done
  unfolding set_key
  cache_stations [] = done
  cache_stations (station ∷ rest) = do
    id ← lift (prop host station "id")
    modify (λ p. record p { stations = set_key id station p.stations })
    cache_stations rest

  unfoldable pub cache_station_list : Value → Eff ManagerPage Done
  unfolding cache_stations
  cache_station_list stations = do
    modify (λ p. record p { stations = [] })
    vs ← lift (elements stations)
    cache_stations vs

  -- The notifications.
  unfoldable pub note_status : Value → Eff ManagerPage Done
  unfolding write_info show_station_status show_connector_status
  note_status notice = do
    modify (write_info ("StatusNotification: " <> host.stringify notice))
    station_id ← lift (prop host notice "stationId")
    here ← gets (λ p. strict_eq station_id p.current_station)
    when here (do
      modify (show_station_status host (read host notice "status"))
      chosen ← gets (λ p. strict_eq (read host notice "connectorId") p.current_connector)
      when chosen (modify (show_connector_status host (read host notice "connectorStatus"))))

  unfoldable pub note_meter_values : Value → Eff ManagerPage Done
  unfolding write_info show_meter_values
  note_meter_values notice = do
    modify (write_info ("MeterValues: " <> host.stringify notice))
    station_id ← lift (prop host notice "stationId")
    here ← gets (λ p.
        strict_eq station_id p.current_station
        && strict_eq (read host notice "connectorId") p.current_connector)
    when here (show_meter_values host (read host notice "values"))

  unfoldable pub note_heartbeat : Value → Eff ManagerPage Done
  unfolding write_info
  note_heartbeat notice = do
    station_id ← lift (prop host notice "stationId")
    modify (write_info ("Heartbeat received from station: " <> text_of host station_id))

  module _ (sends : Bool) where
    -- The methods up to their `await`.
    unfoldable pub request_stations : ManagerWorld → ManagerWorld
    unfolding write_info
    request_stations w =
        call sends "GetStations" (obj end) stations_list
          (on_manager (write_info "Загрузка списка станций...") w)

    unfoldable pub request_station : Value → ManagerWorld → ManagerWorld
    unfolding write_info
    request_station station_id w =
        call sends "GetStationStatus" (obj (field "stationId" station_id end))
          (station_change station_id)
          (on_manager (write_info ("Выбор станции: " <> text_of host station_id)) w)

    unfoldable pub request_connector : Value → ManagerWorld → ManagerWorld
    unfolding write_info
    request_connector connector_id w =
        call sends "GetConnectorStatus"
          (obj (field "stationId" w.page.current_station (field "connectorId" connector_id end)))
          (connector_change connector_id)
          (on_manager (write_info ("Выбор коннектора: " <> text_of host connector_id)) w)

    -- And after it.
    abbrev list_failed : ManagerWorld → ManagerWorld
    list_failed = on_manager (write_error "Ошибка загрузки списка станций")

    -- With no station chosen yet, the first one of the list is.
    unfoldable pub choose_first : Value → Eff ManagerWorld Done
    unfolding request_station
    choose_first stations = do
      missing ← gets (λ w. not (truthy w.page.current_station))
      when (positive host (read host stations "length") && missing)
          (do id ← lift (prop host (first_of host stations) "id"); modify (request_station id))

    unfoldable pub list_loaded : Settled → Eff ManagerWorld Done
    unfolding write_error update_stations_dropdown cache_station_list choose_first parse_response
    list_loaded (rejected e) = modify list_failed
    list_loaded (resolved response) =
        try_catch
          (do
            on_page_act (update_stations_dropdown host (parse_response host response))
            on_page_act (cache_station_list (parse_response host response))
            choose_first (parse_response host response))
          (λ e. modify list_failed)

    abbrev station_lost : Value → ManagerWorld → ManagerWorld
    station_lost station_id =
        on_manager (write_error ("Ошибка загрузки данных станции " <> text_of host station_id))

    -- The connectors of a station, of which the first one is chosen.
    unfoldable pub offer_connectors : Value → Eff ManagerWorld Done
    unfolding show_connectors request_connector
    offer_connectors connectors = do
      on_page_act (show_connectors host connectors)
      when (is_listed host connectors)
          (do id ← lift (prop host (first_of host connectors) "id"); modify (request_connector id))

    unfoldable pub station_loaded : Value → Settled → Eff ManagerWorld Done
    unfolding write_error show_station_info offer_connectors parse_response
    station_loaded station_id (rejected e) = modify (station_lost station_id)
    station_loaded station_id (resolved response) =
        try_catch
          (do
            modify (on_manager (λ p. record p { current_station = station_id }))
            on_page_act (show_station_info host (parse_response host response))
            connectors ← lift (prop host (parse_response host response) "connectors")
            offer_connectors connectors)
          (λ e. modify (station_lost station_id))

    abbrev connector_lost : Value → ManagerWorld → ManagerWorld
    connector_lost connector_id =
        on_manager (write_error ("Ошибка загрузки данных коннектора " <> text_of host connector_id))

    unfoldable pub connector_loaded : Value → Settled → Eff ManagerWorld Done
    unfolding write_error show_connector_info parse_response
    connector_loaded connector_id (rejected e) = modify (connector_lost connector_id)
    connector_loaded connector_id (resolved response) =
        try_catch
          (do
            modify (on_manager (λ p. record p { current_connector = connector_id }))
            on_page_act (show_connector_info host (parse_response host response)))
          (λ e. modify (connector_lost connector_id))
