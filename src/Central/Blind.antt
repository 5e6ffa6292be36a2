-- ===== src/Central/Blind.antt =====
-- What does not read the page survives every action of the page that makes no request.
use ocpp_server.Base.{String, ◌≡◌, refl, Bool, true, false, List, [], ◌∷◌, arith}
use ocpp_server.Js.{
  Value, Exn, modify, Keeps, Keeps-modify, Keeps-done, Keeps-bind, keeps_rules, Host,
}
use ocpp_server.Rpc.State.{Settled, resolved, rejected, nat_key, string_key}
use ocpp_server.Central.State.{
  Kind, info, success, failure, Ui, Page, Command, change_availability, get_station_info,
  get_configuration, get_variable, unlock_connector, World, on_ui,
}
use ocpp_server.Central.View.{
  add_log_entry, log, log_success, log_error, update_connection_status, handle_rpc_error,
  update_station_dropdown, append_connector, append_connectors, update_connectors_dropdown,
  set_first_connector_in_dropdown, update_station_status, update_connector_status,
  update_meter_values, update_power, update_station_info, update_connector_info,
}
use ocpp_server.Central.Selection.{
  show_station, handle_status_notification, handle_meter_values, handle_heartbeat,
}
use ocpp_server.Central.Commands.{succeeded, commanded}

-- `Inv` survives what is shown on the page, and each line of the log.
pub record IsTolerant (Inv : World → Type 0) : Type 0 where
  pub shows :
      (u : Ui) (w : World)
      → u.log ≡ w.page.ui.log
      → Inv w
      → Inv (record w { page = record (w.page) { ui = u } })
  pub logs : (text : String) (kind : Kind) (w : World) → Inv w → Inv (add_log_entry text kind w)

-- And what becomes of the other fields of the page.
pub record IsBlind (Inv : World → Type 0) : Type 0 where
  pub tolerant : IsTolerant Inv
  pub pages : (p : Page) (w : World) → p.ui ≡ w.page.ui → Inv w → Inv (record w { page = p })

module _ (Inv : World → Type 0) (tolerant : IsTolerant Inv) where
  on_ui-Keeps : (f : Ui → Ui) → ((u : Ui) → (f u).log ≡ u.log) → Keeps Inv (modify (on_ui f))
  on_ui-Keeps f same = record { at = λ w i. tolerant.shows _ w (same w.page.ui) i }

  pub log-Inv : (text : String) (w : World) → Inv w → Inv (log text w)
  unfolding log
  log-Inv text w i = tolerant.logs text info w i

  pub log_success-Inv : (text : String) (w : World) → Inv w → Inv (log_success text w)
  unfolding log_success
  log_success-Inv text w i = tolerant.logs text success w i

  pub log_error-Inv : (text : String) (w : World) → Inv w → Inv (log_error text w)
  unfolding log_error
  log_error-Inv text w i = tolerant.logs text failure w i

  set_first-Inv : (w : World) → Inv w → Inv (set_first_connector_in_dropdown w)
  unfolding set_first_connector_in_dropdown
  set_first-Inv w i = tolerant.shows _ w (ground arith) i

  pub update_connection_status-Inv :
      (flag : Bool) (w : World) → Inv w → Inv (update_connection_status flag w)
  unfolding update_connection_status
  update_connection_status-Inv true w i = tolerant.shows _ w refl i
  update_connection_status-Inv false w i = tolerant.shows _ w refl i

  module _ (host : Host) where
    update_connector_status-Inv :
        (status : Value) (w : World) → Inv w → Inv (update_connector_status host status w)
    unfolding update_connector_status
    update_connector_status-Inv status w i = tolerant.shows _ w refl i

    handle_rpc_error-Inv :
        (text : String) (e : Exn) (w : World) → Inv w → Inv (handle_rpc_error host text e w)
    unfolding handle_rpc_error
    handle_rpc_error-Inv text e w i = tolerant.logs _ failure w i

    pub update_station_dropdown-Keeps : (v : Value) → Keeps Inv (update_station_dropdown host v)
    unfolding update_station_dropdown
    update_station_dropdown-Keeps v = search (keeps_rules, on_ui-Keeps)

    append_connector-Keeps : (v : Value) → Keeps Inv (append_connector host v)
    unfolding append_connector
    append_connector-Keeps v = search (keeps_rules, on_ui-Keeps)

    append_connectors-Keeps : (vs : List Value) → Keeps Inv (append_connectors host vs)
    unfolding append_connectors
    append_connectors-Keeps [] = Keeps-done
    append_connectors-Keeps (v ∷ vs) = record {
      at =
          (Keeps-bind (append_connector host v) (λ _. append_connectors host vs)
            (append_connector-Keeps v) (λ _. append_connectors-Keeps vs)).at;
    }

    update_connectors_dropdown-Keeps : (v : Value) → Keeps Inv (update_connectors_dropdown host v)
    unfolding update_connectors_dropdown
    update_connectors_dropdown-Keeps v = search (keeps_rules, on_ui-Keeps, append_connectors-Keeps)

    update_station_status-Keeps : (v : Value) → Keeps Inv (update_station_status host v)
    unfolding update_station_status
    update_station_status-Keeps v = search (keeps_rules, on_ui-Keeps)

    update_meter_values-Keeps : (v : Value) → Keeps Inv (update_meter_values host v)
    unfolding update_meter_values
    update_meter_values-Keeps v = search (keeps_rules, on_ui-Keeps)

    update_power-Keeps : (v : Value) → Keeps Inv (update_power host v)
    unfolding update_power
    update_power-Keeps v = search (keeps_rules, on_ui-Keeps)

    update_station_info-Keeps : (v : Value) → Keeps Inv (update_station_info host v)
    unfolding update_station_info
    update_station_info-Keeps v = search (keeps_rules, on_ui-Keeps, update_station_status-Keeps)

    pub update_connector_info-Keeps : (v : Value) → Keeps Inv (update_connector_info host v)
    unfolding update_connector_info
    update_connector_info-Keeps v =
        search
          (
            keeps_rules, on_ui-Keeps, update_connector_status-Inv, update_meter_values-Keeps,
            update_power-Keeps,
          )
          depth 9

    pub show_station-Keeps : (v : Value) → Keeps Inv (show_station host v)
    unfolding show_station
    show_station-Keeps v =
        search
          (
            keeps_rules, update_station_info-Keeps, update_connectors_dropdown-Keeps, set_first-Inv,
            update_connector_info-Keeps,
          )
          depth 9

    pub handle_status_notification-Keeps :
        (v : Value) → Keeps Inv (handle_status_notification host v)
    unfolding handle_status_notification
    handle_status_notification-Keeps v =
        search (keeps_rules, log-Inv, update_station_status-Keeps, update_connector_status-Inv)
          depth 12

    pub handle_meter_values-Keeps : (v : Value) → Keeps Inv (handle_meter_values host v)
    unfolding handle_meter_values
    handle_meter_values-Keeps v = search (keeps_rules, log-Inv, update_meter_values-Keeps) depth 12

    pub handle_heartbeat-Keeps : (v : Value) → Keeps Inv (handle_heartbeat host v)
    unfolding handle_heartbeat
    handle_heartbeat-Keeps v = search (keeps_rules, log-Inv) depth 9

    succeeded-Inv : (c : Command) (v : Value) (w : World) → Inv w → Inv (succeeded host c v w)
    unfolding succeeded
    succeeded-Inv change_availability v w i = tolerant.logs _ info w i
    succeeded-Inv get_station_info v w i = tolerant.logs _ info w i
    succeeded-Inv get_configuration v w i = tolerant.logs _ info _ (tolerant.logs _ success w i)
    succeeded-Inv get_variable v w i = tolerant.logs _ info _ (tolerant.logs _ success w i)
    succeeded-Inv _ v w i = tolerant.logs _ success w i

    pub commanded-Keeps : (c : Command) (r : Settled) → Keeps Inv (commanded host c r)
    unfolding commanded
    commanded-Keeps c (resolved v) = Keeps-modify _ (succeeded-Inv c v)
    commanded-Keeps unlock_connector (rejected e) = record { at = λ w i. i }
    commanded-Keeps _ (rejected e) = Keeps-modify _ (handle_rpc_error-Inv _ e)
