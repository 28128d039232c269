-- ===== src/Geometry/Splitting.antt =====
-- The halves of a split, and the scales that choose where it falls (geometry.c, geometry.h).
use hikari_sakura.Prelude.{
  ℤ, pos, ◌≡◌, refl, ◌⊎◌, ◌≤ℤ◌, ◌<ℤ◌, ◌+ℤ◌, ◌-ℤ◌, ltb_ℤ-cases, int_laws, arith,
}
use hikari_sakura.Geometry.{
  Box, Halves, split_vertical, split_horizontal, clamp_scale, scale_dynamic_width, visible_start,
  visible_size, constrain_size,
}
use hikari_sakura.Geometry.Bounds.{Within}
use hikari_sakura.Geometry.Double.{DoubleArith, Laws}

-- Two halves side by side fill a box but for a gap between them.
pub record IsRow (src : Box) (gap : ℤ) (h : Halves) : Type 0 where
  pub starts : h.dst1.x ≡ src.x
  pub apart : h.dst2.x ≡ h.dst1.x +ℤ h.dst1.width +ℤ gap
  pub ends : h.dst2.x +ℤ h.dst2.width ≡ src.x +ℤ src.width
  pub tops : (h.dst1.y ≡ src.y) × (h.dst2.y ≡ src.y)
  pub heights : (h.dst1.height ≡ src.height) × (h.dst2.height ≡ src.height)

-- Two halves on top of one another fill a box but for a gap between them.
pub record IsColumn (src : Box) (gap : ℤ) (h : Halves) : Type 0 where
  pub starts : h.dst1.y ≡ src.y
  pub apart : h.dst2.y ≡ h.dst1.y +ℤ h.dst1.height +ℤ gap
  pub ends : h.dst2.y +ℤ h.dst2.height ≡ src.y +ℤ src.height
  pub lefts : (h.dst1.x ≡ src.x) × (h.dst2.x ≡ src.x)
  pub widths : (h.dst1.width ≡ src.width) × (h.dst2.width ≡ src.width)

split_axis_ends : (x w size gap : ℤ) → x +ℤ size +ℤ gap +ℤ (w -ℤ gap -ℤ size) ≡ x +ℤ w
split_axis_ends x w size gap = omega int_laws

-- A vertical split puts its halves side by side: they start and end where the box does, and are
-- exactly `gap` apart.
pub split_vertical-IsRow :
    (src : Box) (width gap : ℤ) → IsRow src gap (split_vertical src width gap)
unfolding split_vertical
split_vertical-IsRow src width gap = record {
  starts = refl;
  apart = refl;
  ends = split_axis_ends src.x src.width width gap;
  tops = (refl, refl);
  heights = (refl, refl);
}

-- A horizontal split puts its halves on top of one another: they start and end where the box
-- does, and are exactly `gap` apart.
pub split_horizontal-IsColumn :
    (src : Box) (height gap : ℤ) → IsColumn src gap (split_horizontal src height gap)
unfolding split_horizontal
split_horizontal-IsColumn src height gap = record {
  starts = refl;
  apart = refl;
  ends = split_axis_ends src.y src.height height gap;
  lefts = (refl, refl);
  widths = (refl, refl);
}

clamp_scale_bounds :
    (low high size : ℤ)
    → low ≤ℤ high
    → (low ≤ℤ clamp_scale low high size) × (clamp_scale low high size ≤ℤ high)
unfolding clamp_scale
clamp_scale_bounds low high size h = grind (int_laws, ltb_ℤ-cases)

module _ (D : DoubleArith) (laws : Laws D) where
  open D use {Double, int_of_product, AtMost, zero_scale, one_scale}

  scale_bounds :
      (n : ℤ) (s : Double)
      → pos 0 ≤ℤ n
      → AtMost zero_scale s
      → AtMost s one_scale
      → (pos 0 ≤ℤ int_of_product n s) × (int_of_product n s ≤ℤ n)
  scale_bounds n s h low high = (
    omega (arith, laws.mono n zero_scale s h low, laws.times_zero_lower n),
    omega (arith, laws.mono n s one_scale h high, laws.times_one_upper n),
  )

  -- A dynamic vertical split never inverts a half: with scales between 0 and 1, whatever the
  -- width of the first view, both halves have a width of at least 0 and the first lies between
  -- the two scaled widths.
  pub scale_dynamic_width_bounds :
      (src geometry : Box) (low high : Double) (gap : ℤ)
      → gap ≤ℤ src.width
      → AtMost zero_scale low
      → AtMost low high
      → AtMost high one_scale
      → let width = scale_dynamic_width D src geometry low high gap in
        (int_of_product (src.width -ℤ gap) low ≤ℤ width)
        × (width ≤ℤ int_of_product (src.width -ℤ gap) high)
        × (pos 0 ≤ℤ (split_vertical src width gap).dst1.width)
        × (pos 0 ≤ℤ (split_vertical src width gap).dst2.width)
  unfolding scale_dynamic_width split_vertical
  scale_dynamic_width_bounds src geometry low high gap h h0 h1 h2 =
      let n = src.width -ℤ gap in
      let room : pos 0 ≤ℤ n = omega int_laws in
      let ordered = laws.mono n low high room h1 in
      let c =
        clamp_scale_bounds (int_of_product n low) (int_of_product n high) geometry.width ordered in
      let l = laws.mono n zero_scale low room h0 in
      let u = laws.mono n high one_scale room h2 in
      (
        c.0,
        c.1,
        omega (arith, l, laws.times_zero_lower n),
        omega (int_laws, u, laws.times_one_upper n),
      )

visible_axis :
    (start size extent : ℤ)
    → pos 0 ≤ℤ start +ℤ size
    → start ≤ℤ extent
    → pos 0 ≤ℤ size
    → (pos 0 ≤ℤ start) ⊎ (start +ℤ size ≤ℤ extent)
    → Within (visible_start start) (visible_size start size extent) (pos 0) extent
      × (pos 0 ≤ℤ visible_size start size extent)
unfolding visible_start visible_size
visible_axis start size extent h k n one = grind (int_laws, ltb_ℤ-cases)

overhanging_axis :
    (start size extent : ℤ)
    → start <ℤ pos 0
    → extent <ℤ start +ℤ size
    → extent <ℤ visible_start start +ℤ visible_size start size extent
unfolding visible_start visible_size
overhanging_axis start size extent h k = grind (int_laws, ltb_ℤ-cases)

-- Of a box that touches an area at the origin, and that sticks out on one side of each axis at
-- most, `constrain_size` leaves a part inside the area, whose sizes are at least 0.
pub constrain_size-Within :
    (g area : Box)
    → (pos 0 ≤ℤ g.x +ℤ g.width) × (g.x ≤ℤ area.width) × (pos 0 ≤ℤ g.width)
    → (pos 0 ≤ℤ g.y +ℤ g.height) × (g.y ≤ℤ area.height) × (pos 0 ≤ℤ g.height)
    → (pos 0 ≤ℤ g.x) ⊎ (g.x +ℤ g.width ≤ℤ area.width)
    → (pos 0 ≤ℤ g.y) ⊎ (g.y +ℤ g.height ≤ℤ area.height)
    → let c = constrain_size g area in
      (Within c.x c.width (pos 0) area.width × (pos 0 ≤ℤ c.width))
      × (Within c.y c.height (pos 0) area.height × (pos 0 ≤ℤ c.height))
unfolding constrain_size
constrain_size-Within g area hx hy ox oy = (
  visible_axis g.x g.width area.width hx.0 hx.1 hx.2 ox,
  visible_axis g.y g.height area.height hy.0 hy.1 hy.2 oy,
)

-- Of a box that sticks out on both sides of an area at the origin, `constrain_size` cuts the
-- left side only: what it leaves still reaches beyond the right edge of the area.
pub constrain_size_overhang :
    (g area : Box)
    → g.x <ℤ pos 0
    → area.width <ℤ g.x +ℤ g.width
    → let c = constrain_size g area in (c.x ≡ pos 0) × (area.width <ℤ c.x +ℤ c.width)
unfolding constrain_size visible_start
constrain_size_overhang g area h k =
    (grind (int_laws, ltb_ℤ-cases), overhanging_axis g.x g.width area.width h k)
