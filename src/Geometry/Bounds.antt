-- ===== src/Geometry/Bounds.antt =====
-- Where geometry.c's `constrain_…` functions and `shrink` put a box.
use hikari_sakura.Prelude.{ℤ, pos, ◌≡◌, refl, ◌≤ℤ◌, ◌+ℤ◌, ◌-ℤ◌, ◌*ℤ◌, ltb_ℤ-cases, int_laws, arith}
use hikari_sakura.Geometry.{
  Box, Margins, absolute_axis, relative_axis, at_least_one, constrain_absolute, constrain_relative,
  shrink,
}

-- The interval `[start, start + size)` lies in the interval `[area, area + extent)`.
abbrev pub Within : ℤ → ℤ → ℤ → ℤ → Type 0
Within start size area extent = (area ≤ℤ start) × (start +ℤ size ≤ℤ area +ℤ extent)

-- A box lies in an area with a margin on every side.
pub record IsInside (margin : ℤ) (b area : Box) : Type 0 where
  pub left : area.x +ℤ margin ≤ℤ b.x
  pub right : b.x +ℤ b.width +ℤ margin ≤ℤ area.x +ℤ area.width
  pub top : area.y +ℤ margin ≤ℤ b.y
  pub bottom : b.y +ℤ b.height +ℤ margin ≤ℤ area.y +ℤ area.height

-- A box fits into an area together with a margin on every side.
pub record Fits (margin : ℤ) (b area : Box) : Type 0 where
  pub wide : b.width +ℤ margin +ℤ margin ≤ℤ area.width
  pub high : b.height +ℤ margin +ℤ margin ≤ℤ area.height

absolute_axis_inside :
    (b s u w a : ℤ)
    → s +ℤ b +ℤ b ≤ℤ w
    → (u +ℤ b ≤ℤ absolute_axis b s u w a) × (absolute_axis b s u w a +ℤ s +ℤ b ≤ℤ u +ℤ w)
unfolding absolute_axis
absolute_axis_inside b s u w a h = grind (int_laws, ltb_ℤ-cases)

absolute_axis_keeps :
    (b s u w a : ℤ) → u +ℤ b ≤ℤ a → a +ℤ s +ℤ b ≤ℤ u +ℤ w → absolute_axis b s u w a ≡ a
unfolding absolute_axis
absolute_axis_keeps b s u w a h k = grind (int_laws, ltb_ℤ-cases)

-- A box that fits with its borders is placed inside the usable area, borders included, wherever
-- it was asked to go; its size is not changed.
pub constrain_absolute-IsInside :
    (m : Margins) (g area : Box) (x y : ℤ)
    → Fits m.border g area
    → IsInside m.border (constrain_absolute m g area x y) area
      × ((constrain_absolute m g area x y).width ≡ g.width)
      × ((constrain_absolute m g area x y).height ≡ g.height)
unfolding constrain_absolute
constrain_absolute-IsInside m g area x y f =
    let p = absolute_axis_inside m.border g.width area.x area.width x f.wide in
    let q = absolute_axis_inside m.border g.height area.y area.height y f.high in
    (record { left = p.0; right = p.1; top = q.0; bottom = q.1 }, refl, refl)

-- A position at which the box lies inside the area with its borders is taken as it is.
pub constrain_absolute_keeps :
    (m : Margins) (g area : Box)
    → IsInside m.border g area
    → constrain_absolute m g area g.x g.y ≡ g
unfolding constrain_absolute
constrain_absolute_keeps m g area i = ground (
  arith,
  absolute_axis_keeps m.border g.width area.x area.width g.x i.left i.right,
  absolute_axis_keeps m.border g.height area.y area.height g.y i.top i.bottom,
)

-- A box reaches into an area by a margin from every side: the margin is what stays in view.
pub record Reaches (margin : ℤ) (b area : Box) : Type 0 where
  pub from_left : area.x +ℤ margin ≤ℤ b.x +ℤ b.width
  pub from_right : b.x +ℤ margin ≤ℤ area.x +ℤ area.width
  pub from_top : area.y +ℤ margin ≤ℤ b.y +ℤ b.height
  pub from_bottom : b.y +ℤ margin ≤ℤ area.y +ℤ area.height

-- The margin that `constrain_relative` keeps in view.
abbrev pub overlap : Margins → ℤ
overlap m = m.gap *ℤ pos 2 -ℤ m.border

relative_axis_reaches :
    (g s u w a : ℤ)
    → g +ℤ g ≤ℤ s +ℤ w
    → (u +ℤ g ≤ℤ relative_axis g s u w a +ℤ s) × (relative_axis g s u w a +ℤ g ≤ℤ u +ℤ w)
unfolding relative_axis
relative_axis_reaches g s u w a h = grind (int_laws, ltb_ℤ-cases)

relative_axis_keeps :
    (g s u w a : ℤ) → u +ℤ g ≤ℤ a +ℤ s → a +ℤ g ≤ℤ u +ℤ w → relative_axis g s u w a ≡ a
unfolding relative_axis
relative_axis_keeps g s u w a h k = grind (int_laws, ltb_ℤ-cases)

-- Wherever a box is moved to, `gap * 2 - border` pixels of it stay in the usable area along each
-- axis, if the box and the area together are at least twice that large; its size is not changed.
pub constrain_relative-Reaches :
    (m : Margins) (g area : Box) (x y : ℤ)
    → overlap m +ℤ overlap m ≤ℤ g.width +ℤ area.width
    → overlap m +ℤ overlap m ≤ℤ g.height +ℤ area.height
    → Reaches (overlap m) (constrain_relative m g area x y) area
      × ((constrain_relative m g area x y).width ≡ g.width)
      × ((constrain_relative m g area x y).height ≡ g.height)
unfolding constrain_relative
constrain_relative-Reaches m g area x y hw hh =
    let p = relative_axis_reaches (overlap m) g.width area.x area.width x hw in
    let q = relative_axis_reaches (overlap m) g.height area.y area.height y hh in
    (record { from_left = p.0; from_right = p.1; from_top = q.0; from_bottom = q.1 }, refl, refl)

-- A position that keeps the margin in view is taken as it is.
pub constrain_relative_keeps :
    (m : Margins) (g area : Box)
    → Reaches (overlap m) g area
    → constrain_relative m g area g.x g.y ≡ g
unfolding constrain_relative
constrain_relative_keeps m g area r = ground (
  arith,
  relative_axis_keeps (overlap m) g.width area.x area.width g.x r.from_left r.from_right,
  relative_axis_keeps (overlap m) g.height area.y area.height g.y r.from_top r.from_bottom,
)

-- Constraining a box where `constrain_relative` has put it changes nothing.
pub constrain_relative_idem :
    (m : Margins) (g area : Box) (x y : ℤ)
    → overlap m +ℤ overlap m ≤ℤ g.width +ℤ area.width
    → overlap m +ℤ overlap m ≤ℤ g.height +ℤ area.height
    → let b = constrain_relative m g area x y in constrain_relative m b area b.x b.y ≡ b
constrain_relative_idem m g area x y hw hh =
    constrain_relative_keeps m (constrain_relative m g area x y) area
      (constrain_relative-Reaches m g area x y hw hh).0

at_least_one_pos : (a : ℤ) → pos 1 ≤ℤ at_least_one a
unfolding at_least_one
at_least_one_pos a = grind (int_laws, ltb_ℤ-cases)

at_least_one_keeps : (a : ℤ) → pos 1 ≤ℤ a → at_least_one a ≡ a
unfolding at_least_one
at_least_one_keeps a h = grind (int_laws, ltb_ℤ-cases)

-- The result of `shrink` is never empty, however large the gap is.
pub shrink_nonempty :
    (g : Box) (gap : ℤ) → (pos 1 ≤ℤ (shrink g gap).width) × (pos 1 ≤ℤ (shrink g gap).height)
unfolding shrink
shrink_nonempty g gap =
    (at_least_one_pos (g.width -ℤ gap *ℤ pos 2), at_least_one_pos (g.height -ℤ gap *ℤ pos 2))
