-- ===== src/Geometry.antt =====
-- geometry.c and geometry.h: boxes, and the arithmetic that splits, clamps and places them.
-- An `int` is an unbounded ℤ: overflow of a signed `int` is undefined in C, and coordinates are pixels.
pub mod Double
pub mod Bounds
pub mod Splitting
mod Tests
use hikari_sakura.Prelude.{ℕ, Bool, ◌≡◌, ℤ, pos, ◌+ℤ◌, ◌-ℤ◌, ◌*ℤ◌, ◌/ℤ◌, ltb_ℤ, if◌then◌else◌}
use Double.{DoubleArith}

-- `struct wlr_box`.
pub record Box : Type 0 where
  pub x : ℤ
  pub y : ℤ
  pub width : ℤ
  pub height : ℤ

-- The fields of `hikari_configuration` that geometry reads.
pub record Margins : Type 0 where
  pub gap : ℤ
  pub border : ℤ

-- The outcome of a split: `dst1` and `dst2`.
pub record Halves : Type 0 where
  pub dst1 : Box
  pub dst2 : Box

unfoldable pub split_vertical : Box → ℤ → ℤ → Halves
split_vertical src width gap = record {
  dst1 = record { x = src.x; y = src.y; width = width; height = src.height };
  dst2 = record {
    x = src.x +ℤ width +ℤ gap;
    y = src.y;
    width = src.width -ℤ gap -ℤ width;
    height = src.height;
  };
}

unfoldable pub split_horizontal : Box → ℤ → ℤ → Halves
split_horizontal src height gap = record {
  dst1 = record { x = src.x; y = src.y; width = src.width; height = height };
  dst2 = record {
    x = src.x;
    y = src.y +ℤ height +ℤ gap;
    width = src.width;
    height = src.height -ℤ gap -ℤ height;
  };
}

-- The ladder shared by the two dynamic scales.
unfoldable pub clamp_scale : ℤ → ℤ → ℤ → ℤ
clamp_scale low high size = if ltb_ℤ size low then low else if ltb_ℤ high size then high else size

module _ (D : DoubleArith) where
  open D use {Double, int_of_product}

  unfoldable pub scale_fixed_width : Box → Double → ℤ → ℤ
  scale_fixed_width src scale gap = int_of_product (src.width -ℤ gap) scale

  unfoldable pub scale_fixed_height : Box → Double → ℤ → ℤ
  scale_fixed_height src scale gap = int_of_product (src.height -ℤ gap) scale

  unfoldable pub scale_dynamic_width : Box → Box → Double → Double → ℤ → ℤ
  unfolding clamp_scale
  scale_dynamic_width src geometry min_scale max_scale gap =
      clamp_scale (int_of_product (src.width -ℤ gap) min_scale)
        (int_of_product (src.width -ℤ gap) max_scale) geometry.width

  unfoldable pub scale_dynamic_height : Box → Box → Double → Double → ℤ → ℤ
  unfolding clamp_scale
  scale_dynamic_height src geometry min_scale max_scale gap =
      clamp_scale (int_of_product (src.height -ℤ gap) min_scale)
        (int_of_product (src.height -ℤ gap) max_scale) geometry.height

-- The two `if (… < 1)` of `shrink`.
unfoldable pub at_least_one : ℤ → ℤ
at_least_one size = if ltb_ℤ size (pos 1) then pos 1 else size

unfoldable pub shrink : Box → ℤ → Box
unfolding at_least_one
shrink geometry gap = record {
  x = geometry.x +ℤ gap;
  y = geometry.y +ℤ gap;
  width = at_least_one (geometry.width -ℤ gap *ℤ pos 2);
  height = at_least_one (geometry.height -ℤ gap *ℤ pos 2);
}

-- One axis of `constrain_absolute`: the new coordinate of a box of this size.
unfoldable pub absolute_axis : ℤ → ℤ → ℤ → ℤ → ℤ → ℤ
absolute_axis border size area_start area_size at =
    let usable_max = area_start +ℤ area_size in
    if ltb_ℤ usable_max (at +ℤ size +ℤ border)
    then usable_max -ℤ size -ℤ border
    else if ltb_ℤ (at -ℤ border) area_start
    then area_start +ℤ border
    else at

unfoldable pub constrain_absolute : Margins → Box → Box → ℤ → ℤ → Box
unfolding absolute_axis
constrain_absolute m geometry usable_area x y = record geometry {
  x = absolute_axis m.border geometry.width usable_area.x usable_area.width x;
  y = absolute_axis m.border geometry.height usable_area.y usable_area.height y;
}

-- One axis of `constrain_relative`.
unfoldable pub relative_axis : ℤ → ℤ → ℤ → ℤ → ℤ → ℤ
relative_axis gap size area_start area_size at =
    let usable_max = area_start +ℤ area_size -ℤ gap in
    let usable_min = area_start -ℤ size +ℤ gap in
    if ltb_ℤ usable_max at then usable_max else if ltb_ℤ at usable_min then usable_min else at

unfoldable pub constrain_relative : Margins → Box → Box → ℤ → ℤ → Box
unfolding relative_axis
constrain_relative m geometry usable_area x y =
    let gap = m.gap *ℤ pos 2 -ℤ m.border in
    record geometry {
      x = relative_axis gap geometry.width usable_area.x usable_area.width x;
      y = relative_axis gap geometry.height usable_area.y usable_area.height y;
    }

unfoldable pub center_x : Box → Box → ℤ
center_x geometry usable_area = usable_area.x +ℤ usable_area.width /ℤ 2 -ℤ geometry.width /ℤ 2

unfoldable pub center_y : Box → Box → ℤ
center_y geometry usable_area = usable_area.y +ℤ usable_area.height /ℤ 2 -ℤ geometry.height /ℤ 2

unfoldable pub right_x : Margins → Box → Box → ℤ
right_x m geometry usable_area = usable_area.x +ℤ usable_area.width -ℤ geometry.width +ℤ m.border

unfoldable pub bottom_y : Margins → Box → Box → ℤ
bottom_y m geometry usable_area = usable_area.y +ℤ usable_area.height -ℤ geometry.height +ℤ m.border

-- The nine `hikari_geometry_position_…` functions: what each writes through `*x` and `*y`.
pub data Position : Type 0 where
  bottom_left bottom_middle bottom_right : Position
  center center_left center_right : Position
  top_left top_middle top_right : Position

unfoldable pub position_x : Position → Margins → Box → Box → ℤ
unfolding center_x right_x
position_x bottom_left m g u = u.x
position_x bottom_middle m g u = center_x g u
position_x bottom_right m g u = right_x m g u
position_x center m g u = center_x g u
position_x center_left m g u = u.x
position_x center_right m g u = right_x m g u
position_x top_left m g u = u.x
position_x top_middle m g u = center_x g u
position_x top_right m g u = right_x m g u

unfoldable pub position_y : Position → Margins → Box → Box → ℤ
unfolding center_y bottom_y
position_y bottom_left m g u = bottom_y m g u
position_y bottom_middle m g u = bottom_y m g u
position_y bottom_right m g u = bottom_y m g u
position_y center m g u = center_y g u
position_y center_left m g u = center_y g u
position_y center_right m g u = center_y g u
position_y top_left m g u = u.y
position_y top_middle m g u = u.y
position_y top_right m g u = u.y

-- One axis of `constrain_size`: the start and the size of the visible part.
unfoldable pub visible_start : ℤ → ℤ
visible_start start = if ltb_ℤ start (pos 0) then pos 0 else start

unfoldable pub visible_size : ℤ → ℤ → ℤ → ℤ
visible_size start size area_size =
    let excess = size -ℤ (area_size -ℤ start) in
    if ltb_ℤ start (pos 0)
    then size +ℤ start
    else if ltb_ℤ (pos 0) excess
    then size -ℤ excess
    else size

unfoldable pub constrain_size : Box → Box → Box
unfolding visible_start visible_size
constrain_size geometry usable_area = record {
  x = visible_start geometry.x;
  y = visible_start geometry.y;
  width = visible_size geometry.x geometry.width usable_area.width;
  height = visible_size geometry.y geometry.height usable_area.height;
}
