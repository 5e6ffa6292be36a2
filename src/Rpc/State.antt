-- ===== src/Rpc/State.antt =====
-- The fields of `RPCClient`, with what the sockets, the promises and the timers have been given.
use ocpp_server.Base.{
  ℕ, String, Bool, false, Option, none, List, [], ◌∷◌, ◌++◌, ◌==◌, eq_iff, nat_eq, nat_eq_iff,
}
use ocpp_server.Base.Dict.{Key}
use ocpp_server.Js.{Value, Exn}

-- A request as it is handed to the socket.
pub record Request : Type 0 where
  pub jsonrpc : String
  pub id : ℕ
  pub method : String
  pub params : Value

-- What a promise was settled with.
pub data Settled : Type 0 where
  resolved : Value → Settled
  rejected : Exn → Settled

-- `K` names what waits on a promise, `H` names the event handlers, and `P` is the page that uses
-- the client. A socket is a number, counted from 0 in the order of creation.
pub record Client (K H P : Type 0) : Type 0 where
  pub ws : Option ℕ
  pub connected : Bool
  pub request_id : ℕ
  pub pending_requests : List (ℕ × K)
  pub event_handlers : List (String × List H)
  pub reconnect_interval : ℕ
  pub max_reconnect_attempts : ℕ
  pub reconnect_attempts : ℕ
  -- of web/js/rpc-client.js; the other client is given the address when it connects
  pub url : String
  -- how many sockets were made, and the addresses that they were opened at, newest first
  pub sockets : ℕ
  pub addresses : List String
  -- the requests that a socket took, in order
  pub sent : List Request
  -- the promises that were settled and whose reactions have not run yet, in order
  pub reactions : List (K × Settled)
  -- the sockets that were told to close
  pub closes : List ℕ
  -- the delays of the timers that run and will call `connect`
  pub timers : List ℕ
  pub page : P

instance abbrev pub nat_key : Key ℕ
nat_key = record { same = nat_eq; same_iff = nat_eq_iff }

instance abbrev pub string_key : Key String
string_key = record { same = ◌==◌; same_iff = eq_iff }

module _ {K H P : Type 0} where
  -- The constructor; `url` is that of web/js/rpc-client.js.
  unfoldable pub new_client : P → Client K H P
  new_client p = record {
    ws = none;
    connected = false;
    request_id = 0;
    pending_requests = [];
    event_handlers = [];
    reconnect_interval = 3000;
    max_reconnect_attempts = 5;
    reconnect_attempts = 0;
    url = "ws://localhost:8080";
    sockets = 0;
    addresses = [];
    sent = [];
    reactions = [];
    closes = [];
    timers = [];
    page = p;
  }

  unfoldable pub set_url : String → Client K H P → Client K H P
  set_url new_url c = record c { url = new_url }

  -- `resolve` and `reject` of the promise that `k` waits on.
  abbrev pub settle : K → Settled → Client K H P → Client K H P
  settle k r c = record c { reactions = c.reactions ++ (k, r) ∷ [] }
