-- ===== src/Layout/Plan.antt =====
-- The state that a layout of a sheet reads and writes, and the scans of sheet.c over it.
use hikari_sakura.Prelude.{
  ℕ, ◌+◌, Bool, true, false, ◌&&◌, ◌==◌, if◌then◌else◌, List, [], ◌∷◌, ◌++◌, Option, none, some,
}
use hikari_sakura.Stacking.Links.{relink}
use hikari_sakura.Stacking.State.{update}
use hikari_sakura.Geometry.{Box, at_least_one}

-- One call of `hikari_view_tile`: the tile that it appends to the layout's tiles, and whether the
-- cursor is to be centered on it.
pub record Tile : Type 0 where
  pub view : ℕ
  pub tile_geometry : Box
  pub center : Bool

-- The views of the sheet, front first, with their flags; the tiles so far; and `*center`.
pub record Plan : Type 0 where
  pub views : List ℕ
  pub tileable : ℕ → Bool
  pub hidden : ℕ → Bool
  pub tiles : List Tile
  pub center : Bool

-- What a layout function returns, and the plan that it leaves; `crash` where it would read through
-- a NULL view.
pub data Outcome : Type 0 where
  done : Option ℕ → Plan → Outcome
  crash : Outcome

-- What comes after a part of a layout function.
abbrev pub and_then : Outcome → (Option ℕ → Plan → Outcome) → Outcome
and_then (done view p) f = f view p
and_then crash f = crash

-- The links behind a view's.
unfoldable pub after : ℕ → List ℕ → List ℕ
after v [] = []
after v (x ∷ xs) = if x == v then xs else after v xs

unfoldable pub first_tileable : (ℕ → Bool) → List ℕ → Option ℕ
first_tileable t [] = none
first_tileable t (x ∷ xs) = let rest = first_tileable t xs in if t x then some x else rest

unfoldable pub scan_next_tileable_view : ℕ → Plan → Option ℕ
unfolding after first_tileable
scan_next_tileable_view v p = first_tileable p.tileable (after v p.views)

unfoldable pub count_tileable : (ℕ → Bool) → List ℕ → ℕ
count_tileable t [] = 0
count_tileable t (x ∷ xs) = (if t x then 1 else 0) + count_tileable t xs

-- The views that are tileable from one on.
unfoldable pub tileable_views : ℕ → Plan → ℕ
unfolding count_tileable after
tileable_views v p = (if p.tileable v then 1 else 0) + count_tileable p.tileable (after v p.views)

-- `hikari_view_show`, as far as a layout sees it.
unfoldable pub view_show : ℕ → Plan → Plan
view_show v p = record p { views = relink true v p.views; hidden = update p.hidden v false }

-- `hikari_view_tile`, and `*center = false` after it. A view whose client has still to take the
-- size is dirty, and not tileable, until it does; whether it takes it at once is `accepts`.
unfoldable pub tile : (ℕ → Box → Bool) → ℕ → Box → Plan → Plan
unfolding at_least_one
tile accepts v geometry p =
    let clamped = record geometry {
      width = at_least_one geometry.width;
      height = at_least_one geometry.height;
    } in
    record p {
      tiles = p.tiles ++ (record { view = v; tile_geometry = clamped; center = p.center } ∷ []);
      tileable = update p.tileable v (p.tileable v && accepts v clamped);
      center = false;
    }
