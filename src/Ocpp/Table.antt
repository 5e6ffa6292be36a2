-- ===== src/Ocpp/Table.antt =====
-- The table of stations after the server's list is loaded.
use ocpp_server.Base.{
  String, ◌≡◌, refl, inl, inr, Bool, false, ◌||◌, Option, none, some, List, [], ◌∷◌, arith, ◌==◌,
  if◌then◌else◌, Bool-cases,
}
use ocpp_server.Base.Dict.{Key}
use ocpp_server.Base.Dict
use ocpp_server.Js.{Value, null, returned, Host, text_of}
use ocpp_server.Rpc.State.{resolved, nat_key, string_key}
use ocpp_server.Ocpp.State.{Connector, Station, System}
use ocpp_server.Ocpp.View.{add_log, update_stations_list}
use ocpp_server.Ocpp.Loading.{
  default_station, load_each, load_station_info, ids_loaded, iterated, parse_response,
}

module _ (host : Host) where
  abbrev pub is_in : String → List Value → Bool
  is_in k [] = false
  is_in k (id ∷ ids) = text_of host id == k || is_in k ids

  abbrev pub connectors_of : Option Station → Option (List (String × Connector))
  connectors_of none = none
  connectors_of (some station) = some station.connectors

  load_station_info-get :
      (id : Value) (k : String) (s : System)
      → Dict.get k (load_station_info host id s).stations
        ≡ (if text_of host id == k then some (default_station id) else Dict.get k s.stations)
  unfolding load_station_info update_stations_list add_log
  load_station_info-get id k s = Dict.get-set (text_of host id) k (default_station id) s.stations

  -- The table after the names of a list were loaded one by one.
  pub load_each-connectors :
      (ids : List Value) (s : System) (k : String)
      → connectors_of (Dict.get k (load_each host ids s).stations) ≡ (
          if is_in k ids
          then some (default_station null).connectors
          else connectors_of (Dict.get k s.stations))
  unfolding load_each
  load_each-connectors [] s k = refl
  load_each-connectors (id ∷ ids) s k =
      rw (load_each-connectors ids (load_station_info host id s) k, load_station_info-get id k s)
        (elim (Bool-cases (text_of host id == k)) [
          | inl here ↦ rw here ground arith
          | inr away ↦ rw away refl
        ])

  ids_loaded-listed :
      (response : Value) (ids : List Value) (s : System)
      → iterated host (parse_response host response) ≡ returned ids
      → ids_loaded host (resolved response) s ≡ load_each host ids s
  unfolding ids_loaded
  ids_loaded-listed response ids s listed = rw (listed, ids_loaded) refl

  -- When the answer holds a list of names, the stations named in it have the two available connectors
  -- with empty meters, whatever they had, and the others have the connectors that they had.
  pub ids_loaded-connectors :
      (response : Value) (ids : List Value) (s : System) (k : String)
      → iterated host (parse_response host response) ≡ returned ids
      → connectors_of (Dict.get k (ids_loaded host (resolved response) s).stations) ≡ (
          if is_in k ids
          then some (default_station null).connectors
          else connectors_of (Dict.get k s.stations))
  ids_loaded-connectors response ids s k listed =
      rw (ids_loaded-listed response ids s listed) (load_each-connectors ids s k)
