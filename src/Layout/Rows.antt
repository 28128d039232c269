-- ===== src/Layout/Rows.antt =====
-- SPLIT_LAYOUT (sheet.c): the boxes of a row of views, along the axis on which they stand.
use hikari_sakura.Prelude.{
  ℕ, zero, suc, ◌+◌, ◌-◌, ◌*◌, ◌/◌, ◌≤◌, Bool, List, [], ◌∷◌, ◌++◌, Option, none, some, ◌≡◌, refl,
  ap, ◌∙◌, arith, length, ℤ, pos, ◌+ℤ◌, ◌-ℤ◌, ◌*ℤ◌, ◌/ℤ◌, ltb_ℤ, int_laws, sub_ℕ,
}
use mathlib.Core.List.{append_assoc}
use native.Mathlib.Omega.{div_fact, mod_fact}
use hikari_sakura.Stacking.Links.{Distinct}
use hikari_sakura.Geometry.{Box, Margins, at_least_one}
use hikari_sakura.Layout.Plan.{Tile, Plan, Outcome, done, scan_next_tileable_view, tile}
use hikari_sakura.Layout.Algorithms.{line_loop, line_layout, between, share, at_least}
use hikari_sakura.Layout.Scan.{remaining}
use hikari_sakura.Layout.Takes.{Stands, takes_one}
use hikari_sakura.Layout.Contract.{none_left, enough_left}

-- The margins of a configuration, which are not negative.
abbrev pub sized : ℕ → ℕ → Margins
sized gap border = record { gap = pos gap; border = pos border }

-- The box that `hikari_view_tile` keeps.
abbrev pub clamped : Box → Box
clamped b = record b { width = at_least_one b.width; height = at_least_one b.height }

-- Tiles that stand in a row from one offset on to the end: each at least a pixel wide, the next one
-- at a fixed distance behind it, and the last one up to the end.
pub data IsRowOf (place : ℤ → ℤ → Box) (start : ℤ) (distance finish : ℕ)
    : ℕ → List Tile → Type 0 where
  last :
      (offset size : ℕ) (t : Tile)
      → t.tile_geometry ≡ clamped (place (start +ℤ pos offset) (pos size))
      → 1 ≤ size
      → offset + size ≡ finish
      → IsRowOf place start distance finish offset (t ∷ [])
  next :
      (offset size : ℕ) (t : Tile) (ts : List Tile)
      → t.tile_geometry ≡ clamped (place (start +ℤ pos offset) (pos size))
      → 1 ≤ size
      → IsRowOf place start distance finish (offset + size + distance) ts
      → IsRowOf place start distance finish offset (t ∷ ts)

-- What a part of a layout adds to the tiles.
pub record Adds (place : ℤ → ℤ → Box) (start : ℤ) (distance finish offset : ℕ) (p : Plan)
    (outcome : Outcome) : Type 0 where
  pub next_view : Option ℕ
  pub left : Plan
  pub new : List Tile
  pub returns : outcome ≡ done next_view left
  pub tiles : left.tiles ≡ p.tiles ++ new
  pub row : IsRowOf place start distance finish offset new

pos_mul : (a b : ℕ) → pos a *ℤ pos b ≡ pos (a * b)
unfolding ◌*ℤ◌
pos_mul a b = grind int_laws

pos_add : (a b : ℕ) → pos a +ℤ pos b ≡ pos (a + b)
pos_add a b = grind int_laws

pos_sub : (a b : ℕ) → b ≤ a → pos a -ℤ pos b ≡ pos (a - b)
pos_sub a b h = grind int_laws

zero_div : (n : ℕ) → 0 / suc n ≡ 0
zero_div n = grind (arith, div_fact 0 n)

no_parts : (q : ℕ) → sub_ℕ q 0 ≡ pos q
no_parts q = ground arith

pos_div : (a n : ℕ) → pos a /ℤ suc n ≡ pos (a / suc n)
unfolding ◌/ℤ◌
pos_div a n = rw (zero_div n) (no_parts (a / suc n))

further : (s : ℤ) (a b : ℕ) → (s +ℤ pos a) +ℤ pos b ≡ s +ℤ pos (a + b)
further s a b = grind int_laws

between_lem : (g b : ℕ) → between (sized g b) ≡ pos (g + 2 * b)
between_lem g b = rw (pos_mul 2 b, pos_add g (2 * b)) refl

last_one : (k : ℕ) → suc k - 1 ≡ k
last_one k = omega arith

at_least_lem : (n v : ℕ) → n ≤ v → at_least n (pos v) ≡ pos v
unfolding at_least ltb_ℤ
at_least_lem n v h = ground arith

share_lem :
    (g b k e : ℕ)
    → 2 * b * k + g * k + suc k ≤ e
    → share (sized g b) (suc k) (pos e) ≡ pos (e - 2 * b * k - g * k)
unfolding share
share_lem g b k e h =
    rw
      (
        last_one k,
        pos_mul 2 b,
        pos_mul (2 * b) k,
        pos_mul g k,
        pos_sub e (2 * b * k) (omega arith),
        pos_sub (e - 2 * b * k) (g * k) (omega arith),
      )
      (at_least_lem (suc k) (e - 2 * b * k - g * k) (omega arith))

quotient_fits : (n v : ℕ) → v / suc n * suc n ≤ v
quotient_fits n v = grind (arith, div_fact v n)

module _ (accepts : ℕ → Box → Bool) (place : ℤ → ℤ → Box) where
  -- The only tile of a row, or its last one.
  Adds-last :
      (start cur : ℤ) (d e o w v : ℕ) (p : Plan)
      → cur ≡ start +ℤ pos o
      → 1 ≤ w
      → o + w ≡ e
      → let q = tile accepts v (place cur (pos w)) p in
        Adds place start d e o p (done (scan_next_tileable_view v q) q)
  unfolding tile at_least_one
  Adds-last start cur d e o w v p at_cur h fits = record {
    next_view = scan_next_tileable_view v (tile accepts v (place cur (pos w)) p);
    left = tile accepts v (place cur (pos w)) p;
    new = record { view = v; tile_geometry = clamped (place cur (pos w)); center = p.center } ∷ [];
    returns = refl;
    tiles = refl;
    row = last o w _ (ap (λ c. clamped (place c (pos w))) at_cur) h fits;
  }

  -- A tile, and the row behind it.
  Adds-next :
      (start cur : ℤ) (d e o w v : ℕ) (p : Plan) (outcome : Outcome)
      → cur ≡ start +ℤ pos o
      → 1 ≤ w
      → Adds place start d e (o + w + d) (tile accepts v (place cur (pos w)) p) outcome
      → Adds place start d e o p outcome
  unfolding tile at_least_one
  Adds-next start cur d e o w v p outcome at_cur h a =
      let t : Tile = record {
        view = v;
        tile_geometry = clamped (place cur (pos w));
        center = p.center;
      } in
      record {
        next_view = a.next_view;
        left = a.left;
        new = t ∷ a.new;
        returns = a.returns;
        tiles = a.tiles ∙ append_assoc p.tiles (t ∷ []) a.new;
        row = next o w t a.new (ap (λ c. clamped (place c (pos w))) at_cur) h a.row;
      }

  step_on :
      (start cur : ℤ) (o w d : ℕ)
      → cur ≡ start +ℤ pos o
      → cur +ℤ (pos d +ℤ pos w) ≡ start +ℤ pos (o + w + d)
  step_on start cur o w d e =
      rw (e, pos_add d w, further start o (d + w)) (ap (λ n. start +ℤ pos n) same)
    where
      same : o + (d + w) ≡ o + w + d
      same = omega arith

  line_loop-Adds :
      (g b : ℕ) (start cur : ℤ) (k o w e : ℕ) (at : Option ℕ) (p : Plan)
      → Distinct p.views
      → Stands at p
      → suc k ≤ length (remaining p at)
      → 1 ≤ w
      → cur ≡ start +ℤ pos o
      → o + suc k * w + k * (g + 2 * b) ≡ e
      → Adds place start
          (g + 2 * b)
          e
          o
          p
          (line_loop accepts (sized g b) place (suc k) cur (pos w) at p)
  unfolding line_loop
  line_loop-Adds g b start cur k o w e none p once s enough h at_cur fits =
      absurd (none_left accepts (sized g b) k p enough)
  line_loop-Adds g b start cur zero o w e (some v) p once s enough h at_cur fits =
      Adds-last start cur (g + 2 * b) e o w v p at_cur h (grind (arith, fits))
  line_loop-Adds g b start cur (suc k) o w e (some v) p once s enough h at_cur fits =
      Adds-next start cur (g + 2 * b) e o w v p _ at_cur h (
        line_loop-Adds g b start (cur +ℤ (between (sized g b) +ℤ pos w)) k (o + w + (g + 2 * b)) w e
          _ (tile accepts v (place cur (pos w)) p) once
          (takes_one accepts v (place cur (pos w)) p once).2
          (enough_left accepts (sized g b) (suc k) v (place cur (pos w)) p once enough) h
          (rw (between_lem g b) (step_on start cur o w (g + 2 * b) at_cur)) (grind (arith, fits)))

  from_start : (start : ℤ) → start ≡ start +ℤ pos 0
  from_start start = grind int_laws

  -- The first view of a row, which gets what is left over, and the others.
  first_and_others :
      (g b : ℕ) (start : ℤ) (k size rest e first : ℕ) (p : Plan)
      → Distinct p.views
      → suc (suc k) ≤ length (remaining p (some first))
      → 1 ≤ size
      → size + rest + (g + 2 * b) + (suc k * size + k * (g + 2 * b)) ≡ e
      → let q = tile accepts first (place start (pos size +ℤ pos rest)) p in
        Adds place start (g + 2 * b) e 0 p (
          line_loop accepts
            (sized g b)
            place
            (suc k)
            (start +ℤ (between (sized g b) +ℤ pos size +ℤ pos rest))
            (pos size)
            (scan_next_tileable_view first q)
            q)
  unfolding tile
  first_and_others g b start k size rest e first p once enough h fits = rw (pos_add size rest) (
      Adds-next start start (g + 2 * b) e 0 (size + rest) first p _ (from_start start) (omega arith)
        (line_loop-Adds g b start _ k (0 + (size + rest) + (g + 2 * b)) size e _
          (tile accepts first (place start (pos (size + rest))) p) once
          (takes_one accepts first (place start (pos (size + rest))) p once).2
          (enough_left accepts (sized g b) (suc k) first (place start (pos (size + rest))) p once
            enough)
          h
          (rw (between_lem g b, pos_add (g + 2 * b) size, pos_add (g + 2 * b + size) rest)
            (ap (λ n. start +ℤ pos n) (omega arith)))
          (omega (arith, fits))))

  -- A row of views fills its frame: along the axis of the row the first tile begins where the frame
  -- does, each next one stands a gap and two borders behind, each has at least a pixel, and the last
  -- one ends where the frame does. The frame has room for a pixel of each view and for what lies
  -- between them, the sheet's views are linked once, and so many of them can have a tile.
  pub line_layout-Adds :
      (g b : ℕ) (start : ℤ) (extent first k : ℕ) (p : Plan)
      → Distinct p.views
      → suc k ≤ length (remaining p (some first))
      → 2 * b * k + g * k + suc k ≤ extent
      → Adds place start
          (g + 2 * b)
          extent
          0
          p
          (line_layout accepts (sized g b) place start (pos extent) first (suc k) p)
  unfolding line_layout
  line_layout-Adds g b start extent first zero p once enough fits =
      Adds-last start start (g + 2 * b) extent 0 extent first p (from_start start) (omega arith)
        (omega arith)
  line_layout-Adds g b start extent first (suc k) p once enough fits =
      let v = extent - 2 * b * suc k - g * suc k in
      let size = v / suc (suc k) in
      rw
        (
          share_lem g b (suc k) extent fits,
          pos_div v (suc k),
          pos_mul size (suc (suc k)),
          pos_sub v (size * suc (suc k)) (quotient_fits (suc k) v),
        )
        (first_and_others g b start k size (v - size * suc (suc k)) extent first p once enough
          (grind (arith, div_fact v (suc k), mod_fact v (suc k), fits))
          (grind (arith, div_fact v (suc k), mod_fact v (suc k), fits)))
