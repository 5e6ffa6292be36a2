-- ===== src/Ocpp/Demo.antt =====
-- The buttons of `OCPPSystem` without a connection.
use ocpp_server.Base.{String, ◌≡◌, Bool, false, arith, ◌==◌}
use ocpp_server.Js.{Host}
use ocpp_server.Rpc.State.{nat_key, string_key}
use ocpp_server.Ocpp.State.{OcppWorld}
use ocpp_server.Ocpp.View.{add_log, alert}
use ocpp_server.Ocpp.Commands.{
  ask, handle_get_base_report, handle_send_variables, handle_send_status_notification,
  handle_send_meter_values, handle_send_heartbit,
}

module _ (host : Host) (sends : Bool) where
  -- All but the page is as it was.
  abbrev pub IsLocal : OcppWorld → OcppWorld → Type 0
  IsLocal w v = record v { page = w.page } ≡ w

  abbrev pub is_connected : OcppWorld → Bool
  is_connected w = w.page.connection_state == "connected"

  -- While the state is not connected, the five buttons that ask the server change the page alone.
  pub demo-IsLocal :
      (component variable attribute evse : String) (w : OcppWorld)
      → is_connected w ≡ false
      → IsLocal w (handle_get_base_report host sends w)
        × IsLocal w (handle_send_variables host sends component variable attribute w)
        × IsLocal w (handle_send_status_notification host sends w)
        × IsLocal w (handle_send_meter_values host sends evse w)
        × IsLocal w (handle_send_heartbit host sends w)
  unfolding handle_get_base_report handle_send_variables handle_send_status_notification
      handle_send_meter_values handle_send_heartbit ask add_log alert
  demo-IsLocal component variable attribute evse w off =
      (ground arith, ground arith, ground arith, ground arith, ground arith)
