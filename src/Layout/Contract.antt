-- ===== src/Layout/Contract.antt =====
-- The layouts of sheet.c tile the next views of the sheet in order.
use hikari_sakura.Prelude.{
  ℕ, zero, suc, ◌≤◌, Bool, true, false, Option, none, some, ◌≡◌, refl, sym, subst, arith, length, ℤ,
}
use hikari_sakura.Stacking.Links.{mem, Distinct}
use hikari_sakura.Geometry.{Box, Margins}
use hikari_sakura.Layout.Plan.{Plan, Outcome, done, scan_next_tileable_view, tile}
use hikari_sakura.Layout.Algorithms.{full_loop, line_loop, line_layout}
use hikari_sakura.Layout.Scan.{remaining}
use hikari_sakura.Layout.Takes.{Stands, NoMore, Shown, Takes, Takes-none, Takes-then, takes_one}

module _ (accepts : ℕ → Box → Bool) (m : Margins) where
  NoMore-tiled : (v : ℕ) (b : Box) (p : Plan) → NoMore (tile accepts v b p) p
  unfolding tile
  NoMore-tiled v b p u = ground arith

  -- A tile, and then the rest of a walk.
  pub Takes-next :
      (k v : ℕ) (b : Box) (p : Plan) (outcome : Outcome)
      → Distinct p.views
      → Takes k (tile accepts v b p) (scan_next_tileable_view v (tile accepts v b p)) outcome
      → Takes (suc k) p (some v) outcome
  unfolding remaining tile
  Takes-next k v b p outcome once t =
      let one = takes_one accepts v b p once in
      subst (λ j. Takes j p (some v) outcome) (omega arith)
        (Takes-then 1 k p (tile accepts v b p) (some v) _ outcome one.0 one.1 refl refl
          (NoMore-tiled v b p) t)

  -- One tile, and the scan behind it.
  pub Takes-last :
      (v : ℕ) (b : Box) (p : Plan)
      → Distinct p.views
      → let q = tile accepts v b p in Takes 1 p (some v) (done (scan_next_tileable_view v q) q)
  Takes-last v b p once =
      Takes-next 0 v b p _ once (Takes-none _ _ (takes_one accepts v b p once).2)

  pub none_left : (k : ℕ) (p : Plan) → suc k ≤ length (remaining p none) → ⊥
  unfolding remaining
  none_left k p h = omega arith

  pub enough_left :
      (k v : ℕ) (b : Box) (p : Plan)
      → Distinct p.views
      → suc k ≤ length (remaining p (some v))
      → let q = tile accepts v b p in k ≤ length (remaining q (scan_next_tileable_view v q))
  unfolding remaining
  enough_left k v b p once h =
      subst (λ l. k ≤ length l) (sym (takes_one accepts v b p once).1) (omega arith)

  line_loop-Takes :
      (place : ℤ → ℤ → Box) (k : ℕ) (start size : ℤ) (at : Option ℕ) (p : Plan)
      → Distinct p.views
      → Stands at p
      → k ≤ length (remaining p at)
      → Takes k p at (line_loop accepts m place k start size at p)
  unfolding line_loop
  line_loop-Takes place zero start size at p once s h = Takes-none p at s
  line_loop-Takes place (suc k) start size none p once s h = absurd (none_left k p h)
  line_loop-Takes place (suc k) start size (some v) p once s h =
      Takes-next k v (place start size) p _ once (
        line_loop-Takes place k _ size _ (tile accepts v (place start size) p) once
          (takes_one accepts v (place start size) p once).2
          (enough_left k v (place start size) p once h))

  -- A row of views tiles as many as it is asked to, if so many are left.
  pub line_layout-Takes :
      (place : ℤ → ℤ → Box) (start extent : ℤ) (first k : ℕ) (p : Plan)
      → Distinct p.views
      → suc k ≤ length (remaining p (some first))
      → Takes (suc k) p (some first) (line_layout accepts m place start extent first (suc k) p)
  unfolding line_layout
  line_layout-Takes place start extent first zero p once h =
      Takes-last first (place start extent) p once
  line_layout-Takes place start extent first (suc k) p once h =
      Takes-next (suc k) first _ p _ once (
        line_loop-Takes place (suc k) _ _ _ (tile accepts first _ p) once
          (takes_one accepts first _ p once).2 (enough_left (suc k) first _ p once h))

  Shown-at :
      (v : ℕ) (p : Plan) → Shown p → mem v p.views ≡ true → p.tileable v ≡ true → p.hidden v ≡ false
  Shown-at v p shown there can = ground (arith, shown v)

  pub full_loop-Takes :
      (frame : Box) (k : ℕ) (at : Option ℕ) (p : Plan)
      → Distinct p.views
      → Shown p
      → Stands at p
      → k ≤ length (remaining p at)
      → Takes k p at (full_loop accepts m frame k at p)
  unfolding full_loop tile
  full_loop-Takes frame zero at p once shown s h = Takes-none p at s
  full_loop-Takes frame (suc k) none p once shown s h = absurd (none_left k p h)
  full_loop-Takes frame (suc k) (some v) p once shown s h =
      rw (s.1, Shown-at v p shown s.0 s.1)
        (Takes-next k v frame p _ once (
          full_loop-Takes frame k _ (tile accepts v frame p) once (λ u. ground (arith, shown u))
            (takes_one accepts v frame p once).2 (enough_left k v frame p once h)))
