-- ===== src/Tooltips.antt =====
-- web/js/tooltips.js: the tooltips of the icons.
use ocpp_server.Base.{
  ℕ, zero, suc, String, ◌≡◌, ◌∙◌, Bool, true, false, Option, none, some, List, [], ◌∷◌, map, arith,
  nat_eq, if◌then◌else◌, get_elem?,
}

pub record Tooltip : Type 0 where
  pub text : String
  -- whether it has the class tooltip--visible
  pub visible : Bool

-- The pointer comes onto the icon of a number, or leaves it.
pub data Hover : Type 0 where
  enter leave : ℕ → Hover

-- `getAttribute` is `null` where an icon has no text.
abbrev attribute_text : Option String → String
attribute_text none = ""
attribute_text (some text) = text

-- A tooltip for each icon, by the attribute data-tooltip of the icons.
unfoldable pub add_tooltips : List (Option String) → List Tooltip
add_tooltips icons = map (λ icon. record { text = attribute_text icon; visible = false }) icons

-- The listeners of the icon of a number.
unfoldable pub set_visible : Bool → ℕ → List Tooltip → List Tooltip
set_visible shown i [] = []
set_visible shown zero (t ∷ ts) = record t { visible = shown } ∷ ts
set_visible shown (suc i) (t ∷ ts) = t ∷ set_visible shown i ts

unfoldable pub hover : Hover → List Tooltip → List Tooltip
unfolding set_visible
hover (enter i) = set_visible true i
hover (leave i) = set_visible false i

abbrev pub hover_all : List Hover → List Tooltip → List Tooltip
hover_all [] ts = ts
hover_all (h ∷ hs) ts = hover_all hs (hover h ts)

-- Whether the icon of a number shows its tooltip after some hovers, when it did or not before.
abbrev pub last_hover : ℕ → List Hover → Bool → Bool
last_hover i [] shown = shown
last_hover i (enter j ∷ hs) shown = last_hover i hs (if nat_eq i j then true else shown)
last_hover i (leave j ∷ hs) shown = last_hover i hs (if nat_eq i j then false else shown)

-- The number of the icon tells its tooltip from the others.
set_visible-shows :
    (shown : Bool) (j i : ℕ) (ts : List Tooltip) (t : Tooltip)
    → get_elem? ts i ≡ some t
    → get_elem? (set_visible shown j ts) i
      ≡ some (record t { visible = if nat_eq i j then shown else t.visible })
unfolding set_visible
set_visible-shows shown j i [] t there = cc
set_visible-shows shown zero zero (u ∷ ts) t there = grind (arith, there)
set_visible-shows shown zero (suc i) (u ∷ ts) t there = ground (arith, there)
set_visible-shows shown (suc j) zero (u ∷ ts) t there = ground (arith, there)
set_visible-shows shown (suc j) (suc i) (u ∷ ts) t there =
    set_visible-shows shown j i ts t there ∙ ground arith

-- After any sequence of hovers the tooltip of an icon has the text that it had, and it is visible if
-- the last hover of its icon was an entry, and not if it was an exit; with none it is as it was.
pub hover_all_lem :
    (hs : List Hover) (ts : List Tooltip) (i : ℕ) (t : Tooltip)
    → get_elem? ts i ≡ some t
    → get_elem? (hover_all hs ts) i ≡ some (record t { visible = last_hover i hs t.visible })
unfolding hover
hover_all_lem [] ts i t there = there
hover_all_lem (enter j ∷ hs) ts i t there =
    hover_all_lem hs _ i _ (set_visible-shows true j i ts t there)
hover_all_lem (leave j ∷ hs) ts i t there =
    hover_all_lem hs _ i _ (set_visible-shows false j i ts t there)
