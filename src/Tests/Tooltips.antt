-- ===== src/Tests/Tooltips.antt =====
-- The tooltips of two icons.
use ocpp_server.Base.{◌≡◌, refl, true, false, none, some, List, [], ◌∷◌, get_elem?}
use ocpp_server.Tooltips.{Tooltip, Hover, enter, leave, add_tooltips, hover_all, hover_all_lem}

abbrev two_icons : List Tooltip
two_icons = add_tooltips (some "Start" ∷ none ∷ [])

abbrev wandering : List Hover
wandering = enter 1 ∷ leave 1 ∷ enter 0 ∷ []

hover_all_lem_example :
    get_elem? (hover_all wandering two_icons) 0 ≡ some (record { text = "Start"; visible = true })
unfolding add_tooltips
hover_all_lem_example =
    hover_all_lem wandering two_icons 0 (record { text = "Start"; visible = false }) refl
