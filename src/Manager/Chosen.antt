-- ===== src/Manager/Chosen.antt =====
-- `handleConnectorChange` after its `await`: what the answer leaves, whatever it holds.
use ocpp_server.Base.{String, ◌≡◌, refl, ◌∙◌, Bool, List, ◌<>◌}
use ocpp_server.Js.{
  Value, Eff, Done, modify, Keeps, Keeps-try_catch, Keeps-modify, keeps_rules, Host, text_of,
}
use ocpp_server.Rpc.State.{resolved, nat_key, string_key}
use ocpp_server.Central.State.{Choice}
use ocpp_server.Central.Selection.{parse_response}
use ocpp_server.Manager.State.{
  ManagerUi, ManagerPage, ManagerWorld, on_manager, with_ui, on_page_act,
}
use ocpp_server.Manager.View.{show_connector_info, write_error}
use ocpp_server.Manager.Selection.{connector_loaded}

-- The choices of the page, and what it offers to choose from.
pub record Chooses (station connector : Value) (stations connectors : List Choice) (p : ManagerPage)
    : Type 0 where
  pub station_is : p.current_station ≡ station
  pub connector_is : p.current_connector ≡ connector
  pub stations_are : p.ui.station_options ≡ stations
  pub connectors_are : p.ui.connector_options ≡ connectors

module _ (station connector : Value) (stations connectors : List Choice) where
  shown-Keeps :
      (f : ManagerUi → ManagerUi)
      → ((u : ManagerUi)
          → ((f u).station_options ≡ u.station_options)
            × ((f u).connector_options ≡ u.connector_options))
      → Keeps (Chooses station connector stations connectors) (modify (with_ui f))
  shown-Keeps f same = record {
    at = λ p c. record {
      station_is = c.station_is;
      connector_is = c.connector_is;
      stations_are = (same p.ui).0 ∙ c.stations_are;
      connectors_are = (same p.ui).1 ∙ c.connectors_are;
    };
  }

  module _ (host : Host) where
    show_connector_info-Keeps :
        (d : Value)
        → Keeps (Chooses station connector stations connectors) (show_connector_info host d)
    unfolding show_connector_info
    show_connector_info-Keeps d = search (keeps_rules, shown-Keeps) depth 12

    -- `w` with a page that chooses so.
    Reached : ManagerWorld → ManagerWorld → Type 0
    Reached w v =
        (p : ManagerPage) × Chooses station connector stations connectors p
        × (v ≡ record w { page = p })

    on_page_act-Reached :
        (w : ManagerWorld) (m : Eff ManagerPage Done)
        → Keeps (Chooses station connector stations connectors) m
        → Keeps (Reached w) (on_page_act m)
    unfolding Reached
    on_page_act-Reached w m k = record { at = λ v (p, c, e). rw e ((m p).1, k.at p c, refl) }

    lost-Reached :
        (w : ManagerWorld) (text : String) (v : ManagerWorld)
        → Reached w v
        → Reached w (on_manager (write_error text) v)
    unfolding Reached write_error
    lost-Reached w text v (p, c, e) = rw e (
      _,
      record {
        station_is = c.station_is;
        connector_is = c.connector_is;
        stations_are = c.stations_are;
        connectors_are = c.connectors_are;
      },
      refl,
    )

    -- After the answer to the request of a connector that is no error, that connector is the current
    -- one, and the page has changed in nothing else that is chosen or offered.
    pub connector_loaded-Chooses :
        (sends : Bool) (msg : Value) (w : ManagerWorld)
        → w.page.current_station ≡ station
        → w.page.ui.station_options ≡ stations
        → w.page.ui.connector_options ≡ connectors
        → (p : ManagerPage) × Chooses station connector stations connectors p
          × ((connector_loaded host sends connector (resolved msg) w).1 ≡ record w { page = p })
    unfolding connector_loaded Reached
    connector_loaded-Chooses sends msg w s ss cs =
        (Keeps-try_catch _ _
            (on_page_act-Reached w _ (show_connector_info-Keeps (parse_response host msg)))
            (λ e.
              Keeps-modify _ (
                lost-Reached w
                  ("Ошибка загрузки данных коннектора " <> text_of host connector)))).at
          (on_manager (λ p. record p { current_connector = connector }) w)
          (
            _,
            record { station_is = s; connector_is = refl; stations_are = ss; connectors_are = cs },
            refl,
          )
