-- ===== src/Central/Notices.antt =====
-- What a notification and the loss of the connection change on the page.
use ocpp_server.Base.{◌≡◌, refl, Bool, true, false, arith}
use ocpp_server.Base.Dict.{Key}
use ocpp_server.Base.Dict
use ocpp_server.Js.{Value, undefined, is_undefined, Host, read}
use ocpp_server.Rpc.State.{nat_key, string_key}
use ocpp_server.Central.State.{connected_handler, disconnected_handler, World}
use ocpp_server.Central.View.{update_station_status}
use ocpp_server.Central.Selection.{rpc_call, load_stations_list, handle_status_notification}
use ocpp_server.Rpc.Core.{on_open}
use ocpp_server.Rpc.Emitter.Registration.{emit_single}
use ocpp_server.Rpc.Emitter.{emit, handlers}
use ocpp_server.Central.Events.{run, socket_open, socket_close, Io, handle}
use ocpp_server.Rpc.Web.{on_close, call}
use ocpp_server.Central.Reactions.{IsRegistered}

module _ (host : Host) where
  -- A status notification that names a connector leaves the status of the connector on the page as
  -- it is, whichever connector is the current one.
  pub status_notification_connector :
      (event : Value) (w : World)
      → is_undefined (read host event "connector_id") ≡ false
      → (handle_status_notification host event w).1.page.ui.connector_status
        ≡ w.page.ui.connector_status
  unfolding handle_status_notification update_station_status
  status_notification_connector event w named = ground arith

  emit_registered :
      (sends : Bool) (w : World)
      → IsRegistered w
      → (emit (run host sends) "connected" undefined w
          ≡ (run host sends connected_handler undefined w).1)
        × (emit (run host sends) "disconnected" undefined w
            ≡ (run host sends disconnected_handler undefined w).1)
  unfolding handlers Dict.has Dict.get
  emit_registered sends w reg = (
    emit_single (run host sends) "connected" undefined connected_handler w (rw reg refl)
        (rw reg refl),
    emit_single (run host sends) "disconnected" undefined disconnected_handler w (rw reg refl)
        (rw reg refl),
  )

  socket_open_shown :
      (io : Io) (w : World)
      → IsRegistered w
      → let v = handle host io socket_open w in
        (v.connected ≡ true)
        × (v.page.ui.connect_disabled ≡ true)
        × (v.page.ui.disconnect_disabled ≡ false)
        × (v.page.ui.status_text ≡ "Соединение установлено")
  unfolding handle on_open run load_stations_list rpc_call call
  socket_open_shown io w reg =
      rw ((emit_registered io.sends (record w { connected = true; reconnect_attempts = 0 }) reg).0)
        (ground arith)

  socket_close_shown :
      (io : Io) (w : World)
      → IsRegistered w
      → let v = handle host io socket_close w in
        (v.connected ≡ false)
        × (v.page.ui.connect_disabled ≡ false)
        × (v.page.ui.disconnect_disabled ≡ true)
        × (v.page.ui.status_text ≡ "Соединение отсутствует")
        × (v.pending_requests ≡ w.pending_requests)
  unfolding handle on_close run
  socket_close_shown io w reg =
      rw ((emit_registered io.sends (record w { connected = false }) reg).1)
        (refl, refl, refl, refl, refl)

  -- With the page's handlers registered, the opening of the socket leaves the client connected, shows
  -- so on the page, and offers the button to disconnect and not that to connect; the closing leaves
  -- it not connected, shows so, offers the button to connect and not that to disconnect, and leaves
  -- every waiting request waiting.
  pub connection_shown :
      (io : Io) (w : World)
      → IsRegistered w
      → let v = handle host io socket_open w in
        let u = handle host io socket_close w in
        ((v.connected ≡ true)
          × (v.page.ui.connect_disabled ≡ true)
          × (v.page.ui.disconnect_disabled ≡ false)
          × (v.page.ui.status_text ≡ "Соединение установлено"))
        × ((u.connected ≡ false)
            × (u.page.ui.connect_disabled ≡ false)
            × (u.page.ui.disconnect_disabled ≡ true)
            × (u.page.ui.status_text ≡ "Соединение отсутствует")
            × (u.pending_requests ≡ w.pending_requests))
  connection_shown io w reg = (socket_open_shown io w reg, socket_close_shown io w reg)
