-- ===== src/Layout/Copying.antt =====
-- split.c: a copy of a tree of splits, against the tree.
use hikari_sakura.Prelude.{ℕ, ◌≡◌, refl, ap}
use hikari_sakura.Geometry.Double.{DoubleArith}
use hikari_sakura.Layout.Algorithms.{LayoutFunc}
use hikari_sakura.Layout.Split.{
  Split, SplitScale, VerticalOrientation, HorizontalOrientation, dynamic, vertical, horizontal,
  container, left, right, top, bottom, flip_scale, split_vertical_init, split_horizontal_init,
  copy_split, fixed,
}

module _ (D : DoubleArith) where
  -- A tree as a configuration file writes it: its scales are for the half that is laid out first.
  pub data Configured : Type 0 where
    vertical_of : SplitScale D → VerticalOrientation → Configured → Configured → Configured
    horizontal_of : SplitScale D → HorizontalOrientation → Configured → Configured → Configured
    container_of : ℕ → LayoutFunc → Configured

  -- The tree that the parsers build of it, from the bottom up.
  abbrev pub built : Configured → Split D
  built (vertical_of scale o l r) = split_vertical_init D scale o (built l) (built r)
  built (horizontal_of scale o t b) = split_horizontal_init D scale o (built t) (built b)
  built (container_of max layout) = container max layout

  -- The tree in which every scale stands as it is written, and so is that of the left or upper half.
  abbrev pub written : Configured → Split D
  written (vertical_of scale o l r) = vertical scale o (written l) (written r)
  written (horizontal_of scale o t b) = horizontal scale o (written t) (written b)
  written (container_of max layout) = container max layout

  -- Scales for which 1 - (1 - s) is s without rounding.
  abbrev IsExactScale : SplitScale D → Type 0
  IsExactScale (fixed scale) = D.one_minus (D.one_minus scale) ≡ scale
  IsExactScale (dynamic min_scale max_scale) =
      (D.one_minus (D.one_minus min_scale) ≡ min_scale)
      × (D.one_minus (D.one_minus max_scale) ≡ max_scale)

  abbrev IsExact : Configured → Type 0
  IsExact (vertical_of scale o l r) = IsExactScale scale × IsExact l × IsExact r
  IsExact (horizontal_of scale o t b) = IsExactScale scale × IsExact t × IsExact b
  IsExact (container_of max layout) = Unit

  flip_twice :
      (scale : SplitScale D) → IsExactScale scale → flip_scale D (flip_scale D scale) ≡ scale
  unfolding flip_scale
  flip_twice (fixed scale) h = ap fixed h
  flip_twice (dynamic min_scale max_scale) h = cc (h.0, h.1)

  -- A copy of the tree that a configuration builds has every scale as it is written, for the left or
  -- upper half, also where the right or lower half is the one that is laid out first; and a copy of
  -- that is the tree that was built. The scales are such that 1 - (1 - s) is s.
  pub copy_split-built :
      (c : Configured)
      → IsExact c
      → (copy_split D (built c) ≡ written c) × (copy_split D (written c) ≡ built c)
  unfolding copy_split split_vertical_init split_horizontal_init
  copy_split-built (vertical_of scale left l r) h =
      let a = copy_split-built l h.1 in
      let b = copy_split-built r h.2 in (cc (a.0, b.0), cc (a.1, b.1))
  copy_split-built (vertical_of scale right l r) h =
      let a = copy_split-built l h.1 in
      let b = copy_split-built r h.2 in
      let turned = flip_twice scale h.0 in (cc (turned, a.0, b.0), cc (a.1, b.1))
  copy_split-built (horizontal_of scale top t b) h =
      let a = copy_split-built t h.1 in
      let c = copy_split-built b h.2 in (cc (a.0, c.0), cc (a.1, c.1))
  copy_split-built (horizontal_of scale bottom t b) h =
      let a = copy_split-built t h.1 in
      let c = copy_split-built b h.2 in
      let turned = flip_twice scale h.0 in (cc (turned, a.0, c.0), cc (a.1, c.1))
  copy_split-built (container_of max layout) h = (refl, refl)
