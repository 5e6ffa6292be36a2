-- ===== src/Manager/Protocol.antt =====
-- What `StationManager` may ask the server for: the names of the parameters of each method, and the
-- parameter that must have a value.
use ocpp_server.Base.{String, ◌≡◌, Bool, true, Option, none, some, List, [], ◌∷◌}
use ocpp_server.Base.Dict.{Key}
use ocpp_server.Base.Dict
use ocpp_server.Js.{Value, undefined, obj, Members, end, field, truthy, field_of}
use ocpp_server.Js.Json.{json_of}
use ocpp_server.Rpc.State.{Request, nat_key, string_key}

pub record Shape : Type 0 where
  pub names : List String
  pub needed : Option String

abbrev shape : List String → Option String → Shape
shape names needed = record { names = names; needed = needed }

abbrev of_station : Shape
of_station = shape ("stationId" ∷ []) (some "stationId")

abbrev of_connector : Shape
of_connector = shape ("stationId" ∷ "connectorId" ∷ []) (some "connectorId")

abbrev pub protocol : List (String × Shape)
protocol =
    ("GetStations", shape [] none)
    ∷ ("GetStationStatus", shape ("stationId" ∷ []) none)
    ∷ ("GetConnectorStatus", shape ("stationId" ∷ "connectorId" ∷ []) none)
    ∷ ("DisableStation", of_station)
    ∷ ("GetStationInfo", of_station)
    ∷ ("GetConfiguration", of_station)
    ∷ ("GetVariable", of_station)
    ∷ (
      "SetVariable",
      shape ("stationId" ∷ "component" ∷ "variable" ∷ "attribute" ∷ []) (some "stationId"),
    )
    ∷ ("RebootStation", of_station)
    ∷ ("ClearCache", of_station)
    ∷ ("RequestStartTransaction", of_connector)
    ∷ ("RequestStopTransaction", of_connector)
    ∷ ("UnlockConnector", of_connector)
    ∷ ("TriggerStatusNotification", of_station)
    ∷ ("TriggerHeartbeat", of_station)
    ∷ ("TriggerMeterValues", shape ("stationId" ∷ "evseId" ∷ []) (some "stationId"))
    ∷ []

abbrev field_names : Members → List String
field_names end = []
field_names (field k v fs) = k ∷ field_names fs

abbrev pub names_of : Value → Option (List String)
names_of (obj fs) = some (field_names fs)
names_of _ = none

abbrev named : String → Value → Value
named k (obj fs) = field_of k fs
named k _ = undefined

abbrev has_needed : Option String → Value → Bool
has_needed none params = true
has_needed (some k) params = truthy (named k params)

abbrev Fits : Option Shape → Value → Type 0
Fits none params = ⊥
Fits (some s) params = (names_of params ≡ some s.names) × (has_needed s.needed params ≡ true)

-- The method is one of the protocol, the parameters are an object with its names in its order, and
-- the parameter that must have a value has one.
abbrev pub Follows : String → Value → Type 0
Follows method params = Fits (Dict.get method protocol) params

-- A socket took such a request as text: what JSON.stringify keeps of its parameters.
pub record IsProper (r : Request) : Type 0 where
  pub params : Value
  pub taken : r.params ≡ json_of params
  pub follows : Follows r.method params
