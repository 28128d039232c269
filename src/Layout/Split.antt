-- ===== src/Layout/Split.antt =====
-- split.c: the tree of splits, its copy, and what it does with a sheet's views.
use hikari_sakura.Prelude.{ℕ, Bool, Option, none, some, ℤ, ◌+ℤ◌, true}
use hikari_sakura.Geometry.{
  Box, Margins, split_vertical, split_horizontal, scale_fixed_width, scale_fixed_height,
  scale_dynamic_width, scale_dynamic_height, shrink,
}
use hikari_sakura.Geometry.Double.{DoubleArith}
use hikari_sakura.Layout.Plan.{Plan, Outcome, done, and_then}
use hikari_sakura.Layout.Algorithms.{LayoutFunc, between, run_layout}

pub data VerticalOrientation : Type 0 where
  left right : VerticalOrientation

pub data HorizontalOrientation : Type 0 where
  top bottom : HorizontalOrientation

module _ (D : DoubleArith) where
  open D use {Double, one_minus}

  -- The union of `hikari_split_scale` with its tag.
  pub data SplitScale : Type 0 where
    fixed : Double → SplitScale
    dynamic : Double → Double → SplitScale

  -- `container->geometry` is written where a split is applied, and read nowhere: it is left out.
  pub data Split : Type 0 where
    vertical : SplitScale → VerticalOrientation → Split → Split → Split
    horizontal : SplitScale → HorizontalOrientation → Split → Split → Split
    container : ℕ → LayoutFunc → Split

  unfoldable pub flip_scale : SplitScale → SplitScale
  flip_scale (fixed scale) = fixed (one_minus scale)
  flip_scale (dynamic min_scale max_scale) = dynamic (one_minus min_scale) (one_minus max_scale)

  unfoldable pub split_vertical_init : SplitScale → VerticalOrientation → Split → Split → Split
  unfolding flip_scale
  split_vertical_init scale left l r = vertical scale left l r
  split_vertical_init scale right l r = vertical (flip_scale scale) right l r

  unfoldable pub split_horizontal_init : SplitScale → HorizontalOrientation → Split → Split → Split
  unfolding flip_scale
  split_horizontal_init scale top t b = horizontal scale top t b
  split_horizontal_init scale bottom t b = horizontal (flip_scale scale) bottom t b

  unfoldable pub copy_split : Split → Split
  unfolding split_vertical_init split_horizontal_init
  copy_split (vertical scale orientation l r) =
      split_vertical_init scale orientation (copy_split l) (copy_split r)
  copy_split (horizontal scale orientation t b) =
      split_horizontal_init scale orientation (copy_split t) (copy_split b)
  copy_split (container max layout) = container max layout

  -- The geometry that the first view has.
  unfoldable pub split_scale_width : SplitScale → Box → Box → ℤ → ℤ
  unfolding scale_fixed_width scale_dynamic_width
  split_scale_width (fixed scale) src first gap = scale_fixed_width D src scale gap
  split_scale_width (dynamic min_scale max_scale) src first gap =
      scale_dynamic_width D src first min_scale max_scale gap

  unfoldable pub split_scale_height : SplitScale → Box → Box → ℤ → ℤ
  unfolding scale_fixed_height scale_dynamic_height
  split_scale_height (fixed scale) src first gap = scale_fixed_height D src scale gap
  split_scale_height (dynamic min_scale max_scale) src first gap =
      scale_dynamic_height D src first min_scale max_scale gap

  -- What a client does with a size, the geometry that a view has before it is tiled, and the margins.
  module _ (accepts : ℕ → Box → Bool) (view_geometry : ℕ → Box) (m : Margins) where
    unfoldable pub apply_split : Split → Box → Option ℕ → Plan → Outcome
    unfolding split_scale_width split_scale_height split_vertical split_horizontal run_layout
    apply_split (vertical scale left l r) geometry none p = done none p
    apply_split (vertical scale right l r) geometry none p = done none p
    apply_split (horizontal scale top t b) geometry none p = done none p
    apply_split (horizontal scale bottom t b) geometry none p = done none p
    apply_split (container max layout) geometry none p = done none p
    apply_split (vertical scale left l r) geometry (some first) p =
        let halves =
          split_vertical geometry (split_scale_width scale geometry (view_geometry first) m.gap)
            (between m) in
        and_then (apply_split l halves.dst1 (some first) p) (apply_split r halves.dst2)
    apply_split (vertical scale right l r) geometry (some first) p =
        let halves =
          split_vertical geometry (split_scale_width scale geometry (view_geometry first) m.gap)
            (between m) in
        and_then (apply_split r halves.dst2 (some first) p) (apply_split l halves.dst1)
    apply_split (horizontal scale top t b) geometry (some first) p =
        let halves =
          split_horizontal geometry (split_scale_height scale geometry (view_geometry first) m.gap)
            (between m) in
        and_then (apply_split t halves.dst1 (some first) p) (apply_split b halves.dst2)
    apply_split (horizontal scale bottom t b) geometry (some first) p =
        let halves =
          split_horizontal geometry (split_scale_height scale geometry (view_geometry first) m.gap)
            (between m) in
        and_then (apply_split b halves.dst2 (some first) p) (apply_split t halves.dst1)
    apply_split (container max layout) geometry (some first) p =
        run_layout layout accepts m max geometry first p

    -- `hikari_split_apply`: the cursor is centered on the first tile.
    unfoldable pub split_apply : Split → Box → Option ℕ → Plan → Outcome
    unfolding apply_split shrink
    split_apply split geometry none p = done none p
    split_apply split geometry (some first) p =
        apply_split split (shrink geometry (m.gap +ℤ m.border)) (some first)
          (record p { center = true })
