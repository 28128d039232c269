-- ===== src/Layout/Splitting.antt =====
-- split.c: what a tree of splits promises to the views of a sheet.
use hikari_sakura.Prelude.{
  ℕ, ◌+◌, ◌-◌, ◌≤◌, min, Bool, Option, none, some, ◌≡◌, ap, sym, ◌∙◌, subst, arith, length,
  length-drop,
}
use hikari_sakura.Stacking.Links.{mem, Distinct}
use hikari_sakura.Geometry.{Box, Margins}
use hikari_sakura.Geometry.Double.{DoubleArith}
use hikari_sakura.Layout.Plan.{Plan, Outcome, done, and_then}
use hikari_sakura.Layout.Scan.{remaining}
use hikari_sakura.Layout.Takes.{Stands, NoMore, Shown, Takes, Takes-none, Takes-then}
use hikari_sakura.Layout.Run.{room, HasRoom, run_layout-Takes}
use hikari_sakura.Layout.Split.{
  Split, vertical, horizontal, container, left, right, top, bottom, apply_split,
}

min_then : (a b n : ℕ) → min a n + min b (n - min a n) ≡ min (a + b) n
min_then a b n = omega arith

min_rest : (a n : ℕ) → n - min a n ≡ n - a
min_rest a n = omega arith

-- How many views are left after a part has taken what it has room for.
left_over :
    (a : ℕ) (p : Plan) (at : Option ℕ) (outcome : Outcome)
    → (t : Takes (min a (length (remaining p at))) p at outcome)
    → length (remaining t.left t.next) ≡ length (remaining p at) - a
left_over a p at outcome t =
    ap length t.rest
    ∙ length-drop (min a (length (remaining p at))) (remaining p at)
    ∙ min_rest a (length (remaining p at))

-- The two halves of a split, in the order in which they are applied.
two_parts :
    (a b : ℕ) (p : Plan) (at : Option ℕ) (outcome : Outcome) (second : Option ℕ → Plan → Outcome)
    → (t : Takes (min a (length (remaining p at))) p at outcome)
    → Takes (min b (length (remaining t.left t.next))) t.left t.next (second t.next t.left)
    → Takes (min (a + b) (length (remaining p at))) p at (and_then outcome second)
two_parts a b p at outcome second t u =
    let n = length (remaining p at) in
    rw t.returns (
      subst (λ j. Takes j p at (second t.next t.left))
        (ap (λ l. min a n + min b l) (left_over a p at outcome t)
          ∙ ap (λ l. min a n + min b l) (sym (min_rest a n))
          ∙ min_then a b n)
        (Takes-then (min a n) (min b (length (remaining t.left t.next))) p t.left at t.next _
          t.order t.rest t.views t.hidden t.fewer u))

Shown-left : (q p : Plan) → NoMore q p → q.views ≡ p.views → q.hidden ≡ p.hidden → Shown p → Shown q
Shown-left q p fewer vs e shown u =
    ground (arith, fewer u, shown u, ap (λ h. h u) e, ap (λ l. mem u l) vs)

module _ (D : DoubleArith) where
  -- How many views a tree has room for.
  unfoldable pub capacity : Split D → ℕ
  unfolding room
  capacity (vertical scale orientation l r) = capacity l + capacity r
  capacity (horizontal scale orientation t b) = capacity t + capacity b
  capacity (container max layout) = room layout max

  -- Every container is for one view at least, and a grid has room for all views that come to it.
  unfoldable pub Roomy : Split D → ℕ → Type 0
  unfolding HasRoom capacity
  Roomy (vertical scale left l r) n = Roomy l n × Roomy r (n - capacity l)
  Roomy (vertical scale right l r) n = Roomy r n × Roomy l (n - capacity r)
  Roomy (horizontal scale top t b) n = Roomy t n × Roomy b (n - capacity t)
  Roomy (horizontal scale bottom t b) n = Roomy b n × Roomy t (n - capacity b)
  Roomy (container max layout) n = (1 ≤ max) × HasRoom layout max n

  module _ (accepts : ℕ → Box → Bool) (view_geometry : ℕ → Box) (m : Margins) where
    -- The promise of a tree, wherever it is applied.
    abbrev Keeps : Split D → Type 0
    Keeps split =
        (geometry : Box) (at : Option ℕ) (p : Plan)
        → Distinct p.views
        → Stands at p
        → Shown p
        → Roomy split (length (remaining p at))
        → Takes (min (capacity split) (length (remaining p at))) p at
            (apply_split D accepts view_geometry m split geometry at p)

    in_order :
        (a b : Split D) (first second : Box) (at : Option ℕ) (p : Plan)
        → Keeps a
        → Keeps b
        → Distinct p.views
        → Stands at p
        → Shown p
        → Roomy a (length (remaining p at))
        → Roomy b (length (remaining p at) - capacity a)
        → Takes (min (capacity a + capacity b) (length (remaining p at))) p at (
            and_then
              (apply_split D accepts view_geometry m a first at p)
              (apply_split D accepts view_geometry m b second))
    in_order a b first second at p keeps_a keeps_b once stands shown room_a room_b =
        let t = keeps_a first at p once stands shown room_a in
        two_parts (capacity a) (capacity b) p at _ _ t (
          keeps_b second t.next t.left (subst Distinct (sym t.views) once) t.stands
            (Shown-left t.left p t.fewer t.views t.hidden shown)
            (subst (Roomy b) (sym (left_over (capacity a) p at _ t)) room_b))

    at_none : (n : ℕ) (p : Plan) → Takes (min n (length (remaining p none))) p none (done none p)
    unfolding remaining
    at_none n p = subst (λ j. Takes j p none (done none p)) (omega arith) (Takes-none p none tt)

    -- A tree tiles the next views of the sheet, each once and in order, as many as it has room for,
    -- and returns the first that is left over.
    pub apply_split-Takes : (split : Split D) → Keeps split
    unfolding apply_split capacity Roomy
    apply_split-Takes (vertical scale left l r) geometry none p once stands shown roomy =
        at_none _ p
    apply_split-Takes (vertical scale right l r) geometry none p once stands shown roomy =
        at_none _ p
    apply_split-Takes (horizontal scale top t b) geometry none p once stands shown roomy =
        at_none _ p
    apply_split-Takes (horizontal scale bottom t b) geometry none p once stands shown roomy =
        at_none _ p
    apply_split-Takes (container max layout) geometry none p once stands shown roomy = at_none _ p
    apply_split-Takes (vertical scale left l r) geometry (some v) p once stands shown roomy =
        in_order l r _ _ (some v) p (apply_split-Takes l) (apply_split-Takes r) once stands shown
          roomy.0 roomy.1
    apply_split-Takes (vertical scale right l r) geometry (some v) p once stands shown roomy =
        subst
          (λ c.
            Takes (min c (length (remaining p (some v)))) p (some v) (
              apply_split D accepts view_geometry m (vertical scale right l r) geometry (some v) p))
          (omega arith)
          (in_order r l _ _ (some v) p (apply_split-Takes r) (apply_split-Takes l) once stands shown
            roomy.0 roomy.1)
    apply_split-Takes (horizontal scale top t b) geometry (some v) p once stands shown roomy =
        in_order t b _ _ (some v) p (apply_split-Takes t) (apply_split-Takes b) once stands shown
          roomy.0 roomy.1
    apply_split-Takes (horizontal scale bottom t b) geometry (some v) p once stands shown roomy =
        subst
          (λ c. Takes (min c (length (remaining p (some v)))) p (some v) (
            apply_split D accepts view_geometry m (horizontal scale bottom t b) geometry (some v)
              p))
          (omega arith)
          (in_order b t _ _ (some v) p (apply_split-Takes b) (apply_split-Takes t) once stands shown
            roomy.0 roomy.1)
    apply_split-Takes (container max layout) geometry (some v) p once stands shown roomy =
        run_layout-Takes accepts m layout max geometry v p once stands.0 stands.1 shown roomy.0
          roomy.1
