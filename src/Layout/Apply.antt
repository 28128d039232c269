-- ===== src/Layout/Apply.antt =====
-- `hikari_sheet_apply_split` (sheet.c): a sheet takes a split as its layout and is laid out.
use hikari_sakura.Prelude.{
  ℕ, Bool, true, false, not, ◌&&◌, ◌||◌, if◌then◌else◌, List, [], ◌∷◌, reverse, Option, none, some,
}
use hikari_sakura.Stacking.Links.{relink}
use hikari_sakura.Geometry.{Box, Margins}
use hikari_sakura.Geometry.Double.{DoubleArith}
use hikari_sakura.Layout.Plan.{Plan, Outcome, done, and_then, view_show, first_tileable}
use hikari_sakura.Layout.Split.{Split, copy_split, split_apply}

-- The body of `show_tileable` at the views that its walk meets. `shows` is the rest of its test: a
-- view that is not forced, floating or invisible. The walk goes backwards; where it comes to the
-- views that it has moved to the front they are shown, and are left alone.
unfoldable pub show_each : (ℕ → Bool) → List ℕ → Plan → Plan
unfolding view_show
show_each shows [] p = p
show_each shows (v ∷ vs) p = show_each shows vs (if p.hidden v && shows v then view_show v p else p)

unfoldable pub show_tileable : (ℕ → Bool) → Plan → Plan
unfolding show_each
show_tileable shows p = show_each shows (reverse p.views) p

-- The view that is returned, and the plan, in which it is shown.
unfoldable pub show_first : Option ℕ → Plan → Outcome
unfolding view_show
show_first none p = done none p
show_first (some v) p = done (some v) (if p.hidden v then view_show v p else p)

unfoldable pub first_tileable_view : Plan → Outcome
unfolding first_tileable show_first
first_tileable_view p = show_first (first_tileable p.tileable p.views) p

-- `raise_floating`, whose walk ends where it comes to the first view that it has raised. The view that
-- is the server's first one, which `hikari_view_raise` leaves alone, is raised here too: the sheet's
-- order may differ by its place, and the tiles do not depend on it.
unfoldable pub raise_each : (ℕ → Bool) → List ℕ → Plan → Plan
raise_each floating [] p = p
raise_each floating (v ∷ vs) p =
    raise_each floating vs
      (if not (p.hidden v) && floating v then record p { views = relink true v p.views } else p)

unfoldable pub raise_floating : (ℕ → Bool) → Option ℕ → Plan → Outcome
unfolding raise_each
raise_floating floating view p = done view (raise_each floating (reverse p.views) p)

unfoldable pub any : (ℕ → Bool) → List ℕ → Bool
any test [] = false
any test (v ∷ vs) = test v || any test vs

-- The flags of views that the sheet's functions test.
pub record Flags : Type 0 where
  pub dirty : ℕ → Bool
  pub floating : ℕ → Bool
  pub shows : ℕ → Bool

module _ (D : DoubleArith) where
  -- `sheet->layout`: the views of its tiles, and its split.
  pub record SheetLayout : Type 0 where
    pub layout_tiles : List ℕ
    pub layout_split : Split D

  -- The split of the layout afterwards; whether the new one is the very one that the layout has.
  unfoldable pub taken_split : Option SheetLayout → Split D → Bool → Split D
  unfolding copy_split
  taken_split none split same = copy_split D split
  taken_split (some layout) split same = if same then layout.layout_split else copy_split D split

  -- The early return: a tile that is dirty.
  unfoldable pub is_settling : (ℕ → Bool) → Option SheetLayout → Bool
  unfolding any
  is_settling dirty none = false
  is_settling dirty (some layout) = any dirty layout.layout_tiles

  module _ (accepts : ℕ → Box → Bool) (view_geometry : ℕ → Box) (m : Margins) (flags : Flags) where
    unfoldable pub lay_out : Split D → Box → Plan → Outcome
    unfolding show_tileable first_tileable_view split_apply raise_floating
    lay_out split usable_area p =
        and_then
          (and_then (first_tileable_view (show_tileable flags.shows p))
            (split_apply D accepts view_geometry m split usable_area))
          (raise_floating flags.floating)

    unfoldable pub sheet_apply_split : Option SheetLayout → Split D → Bool → Box → Plan → Outcome
    unfolding is_settling taken_split lay_out
    sheet_apply_split layout split same usable_area p =
        if is_settling flags.dirty layout
        then done none p
        else lay_out (taken_split layout split same) usable_area p
