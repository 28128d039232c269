-- ===== src/Layout/Grid.antt =====
-- `grid_layout` (sheet.c): the size of its grid, and which views it tiles.
use hikari_sakura.Prelude.{
  ℕ, zero, suc, ◌+◌, ◌-◌, ◌*◌, ◌≤◌, ◌<◌, min, Bool, true, ltb, Bool-cases, ltb→lt, lt→ltb, ltb→ge,
  ge→ltb, List, [], ◌∷◌, ◌++◌, Option, none, some, ◌≡◌, refl, ap, sym, ◌∙◌, subst, arith, length,
  take, drop, drop_all, drop-add, length-drop, inl, inr, ◌⊎◌, ℤ, ◌+ℤ◌,
}
use hikari_sakura.Stacking.Links.{mem, Distinct}
use hikari_sakura.Geometry.{Box, Margins}
use hikari_sakura.Layout.Plan.{Plan, Outcome, done, and_then, scan_next_tileable_view, tile}
use hikari_sakura.Layout.Algorithms.{
  grow, grid_size, grid_return, grid_row, grid_rows, grid_cells, grid_layout, between,
}
use hikari_sakura.Layout.Scan.{remaining, tiled}
use hikari_sakura.Layout.Takes.{Stands, Takes, Takes-none, Takes-then, takes_one, scan_rest}
use hikari_sakura.Layout.Contract.{Takes-next, Takes-last}

-- A grid has room for the views. It is one column wider than high, and a square without that
-- column would not do; or it is square, and would not do without its last row.
pub record IsGridFor (n rows cols : ℕ) : Type 0 where
  pub positive : 1 ≤ rows
  pub room : n ≤ rows * cols
  pub shape :
      ((cols ≡ suc rows) × (rows * rows < n))
      ⊎ ((cols ≡ rows) × ((rows ≡ 1) ⊎ ((rows - 1) * rows < n)))

grow-IsGridFor :
    (n r c : ℕ)
    → IsGridFor n r c
    → IsGridFor (suc n) (grow (suc n) (r, c)).0 (grow (suc n) (r, c)).1
unfolding grow
grow-IsGridFor n r c g = elim (Bool-cases (ltb (r * c) (suc n))) [
  | inr fits ↦
      rw fits (record { positive = g.positive; room = ltb→ge _ _ fits; shape = still g.shape })
  | inl full' ↦ elim g.shape [
    | inl (e, h) ↦
        rw (full', lt→ltb r c (omega (arith, e)))
          (record {
            positive = omega arith;
            room = grind (arith, e, g.room);
            shape = inr (e, inr (grind (arith, e, ltb→lt _ _ full')));
          })
    | inr (e, h) ↦
        rw (full', ge→ltb r c (omega (arith, e)))
          (record {
            positive = g.positive;
            room = grind (arith, e, g.room, g.positive);
            shape = inl (omega (arith, e), subst (λ k. r * k < suc n) e (ltb→lt _ _ full'));
          })
  ]
]
  where
    still :
        ((c ≡ suc r) × (r * r < n)) ⊎ ((c ≡ r) × ((r ≡ 1) ⊎ ((r - 1) * r < n)))
        → ((c ≡ suc r) × (r * r < suc n)) ⊎ ((c ≡ r) × ((r ≡ 1) ⊎ ((r - 1) * r < suc n)))
    still (inl (e, h)) = inl (e, grind (arith, h))
    still (inr (e, inl h)) = inr (e, inl h)
    still (inr (e, inr h)) = inr (e, inr (grind (arith, h)))

-- The grid that `grid_layout` chooses has room for the views. It is one column wider than high, and a
-- square without that column would not do; or it is square, and would not do without its last row.
pub grid_size-IsGridFor : (n : ℕ) → IsGridFor n (grid_size n).0 (grid_size n).1
unfolding grid_size
grid_size-IsGridFor zero = record {
  positive = omega arith;
  room = omega arith;
  shape = inr (refl, inl refl);
}
grid_size-IsGridFor (suc n) = grow-IsGridFor n _ _ (grid_size-IsGridFor n)

-- With nothing left there is nothing to scan for.
at_end :
    (k : ℕ) (p : Plan) (at next : Option ℕ) (left : Plan)
    → Takes k p at (done next left)
    → remaining left next ≡ []
    → Takes k p at (grid_return next left)
unfolding grid_return remaining
at_end k p at none left t e = t
at_end k p at (some v) left t e = cc

finish :
    (k : ℕ) (p : Plan) (at : Option ℕ) (outcome : Outcome)
    → Takes k p at outcome
    → length (remaining p at) ≤ k
    → Takes k p at (and_then outcome grid_return)
finish k p at outcome t h =
    subst (λ o. Takes k p at (and_then o grid_return)) (sym t.returns)
      (at_end k p at t.next t.left (subst (λ o. Takes k p at o) t.returns t)
        (t.rest ∙ drop_all k (remaining p at) h))

module _ (accepts : ℕ → Box → Bool) (m : Margins) where
  grid_row-Takes :
      (k : ℕ) (x y now later height : ℤ) (at : Option ℕ) (p : Plan)
      → Distinct p.views
      → Stands at p
      → Takes
          (min k (length (remaining p at)))
          p
          at
          (grid_row accepts m k x y now later height at p)
  unfolding grid_row remaining
  grid_row-Takes zero x y now later height at p once s =
      subst (λ j. Takes j p at (done at p)) (omega arith) (Takes-none p at s)
  grid_row-Takes (suc k) x y now later height none p once s =
      subst (λ j. Takes j p none (done none p)) (omega arith) (Takes-none p none tt)
  grid_row-Takes (suc k) x y now later height (some v) p once s =
      let b : Box = record { x = x; y = y; width = now; height = height } in
      let q = tile accepts v b p in
      let one = takes_one accepts v b p once in
      subst (λ j. Takes j p (some v) (grid_row accepts m (suc k) x y now later height (some v) p))
        (omega (arith, ap length one.1))
        (Takes-next accepts m (min k (length (remaining q (scan_next_tileable_view v q)))) v b p _
          once (grid_row-Takes k _ y later later height (scan_next_tileable_view v q) q once one.2))

  cells_left : (k c len : ℕ) → min c len + min (k * c) (len - min c len) ≡ min (suc k * c) len
  cells_left k c len = grind arith

  grid_rows-Takes :
      (c k : ℕ) (x y width later_width now later : ℤ) (at : Option ℕ) (p : Plan)
      → Distinct p.views
      → Stands at p
      → Takes
          (min (k * c) (length (remaining p at)))
          p
          at
          (grid_rows accepts m c k x y width later_width now later at p)
  unfolding grid_rows remaining
  grid_rows-Takes c zero x y width later_width now later at p once s =
      subst (λ j. Takes j p at (done at p)) (grind arith) (Takes-none p at s)
  grid_rows-Takes c (suc k) x y width later_width now later none p once s =
      subst (λ j. Takes j p none (done none p)) (omega arith) (Takes-none p none tt)
  grid_rows-Takes c (suc k) x y width later_width now later (some v) p once s =
      let t = grid_row-Takes c x y width later_width now (some v) p once s in
      let left_once = subst Distinct (sym t.views) once in
      let rows =
        grid_rows-Takes c k x (y +ℤ (between m +ℤ now)) width later_width later later t.next t.left
          left_once t.stands in
      let len = length (remaining p (some v)) in
      let all =
        Takes-then (min c len) (min (k * c) (length (remaining t.left t.next))) p t.left (some v)
          t.next _ t.order t.rest t.views t.hidden t.fewer rows in
      rw t.returns (
        subst
          (λ j. Takes j p (some v) (
            grid_rows accepts m c k x (y +ℤ (between m +ℤ now)) width later_width later later t.next
              t.left))
          (ap (λ l. min c len + min (k * c) l)
              (ap length t.rest ∙ length-drop (min c len) (remaining p (some v)))
            ∙ cells_left k c len)
          all)

  only_one :
      (p : Plan) (first : ℕ)
      → length (remaining p (some first)) ≤ (grid_size 1).0 * (grid_size 1).1
      → 1 ≡ length (remaining p (some first))
  unfolding remaining grid_size grow
  only_one p first h = omega arith

  cells-Takes :
      (frame : Box) (first n : ℕ) (p : Plan)
      → Distinct p.views
      → p.tileable first ≡ true
      → mem first p.views ≡ true
      → Takes
          (min ((grid_size n).0 * (grid_size n).1) (length (remaining p (some first))))
          p
          (some first)
          (grid_cells accepts m frame (grid_size n).0 (grid_size n).1 first p)
  unfolding grid_cells
  cells-Takes frame first n p once can there =
      grid_rows-Takes (grid_size n).1 (grid_size n).0 _ _ _ _ _ _ (some first) p once (there, can)

  -- Where the grid has a cell for every view that is left, all of them are tiled.
  pub grid_layout-Takes :
      (frame : Box) (first n : ℕ) (p : Plan)
      → Distinct p.views
      → p.tileable first ≡ true
      → mem first p.views ≡ true
      → 1 ≤ n
      → length (remaining p (some first)) ≤ (grid_size n).0 * (grid_size n).1
      → Takes
          (length (remaining p (some first)))
          p
          (some first)
          (grid_layout accepts m frame first n p)
  unfolding grid_layout grid_cells grid_return
  grid_layout-Takes frame first zero p once can there h fits = absurd (omega arith)
  grid_layout-Takes frame first (suc zero) p once can there h fits =
      subst (λ j. Takes j p (some first) (grid_layout accepts m frame first 1 p))
        (only_one p first fits) (Takes-last accepts m first frame p once)
  grid_layout-Takes frame first (suc (suc k)) p once can there h fits =
      subst (λ j. Takes j p (some first) (grid_layout accepts m frame first (suc (suc k)) p))
        (omega arith)
        (finish _ p (some first) _ (cells-Takes frame first (suc (suc k)) p once can there)
          (omega arith))

-- What `grid_layout` does where the sheet has more views left than the grid has cells: it fills the
-- cells, passes over the next view, and returns the one behind it.
pub record PassesOver (cells : ℕ) (p : Plan) (at : Option ℕ) (outcome : Outcome) : Type 0 where
  pub next : Option ℕ
  pub left : Plan
  pub returns : outcome ≡ done next left
  pub order : tiled left.tiles ≡ tiled p.tiles ++ take cells (remaining p at)
  pub rest : remaining left next ≡ drop (suc cells) (remaining p at)

drop_next : (k v : ℕ) (xs ys : List ℕ) → v ∷ ys ≡ drop k xs → ys ≡ drop (suc k) xs
drop_next k v xs ys e = ap (drop 1) e ∙ sym (drop-add k 1 xs) ∙ ap (λ j. drop j xs) (add_one k)
  where
    add_one : (k : ℕ) → k + 1 ≡ suc k
    add_one k = omega arith

pass_over_at :
    (k : ℕ) (p : Plan) (at next : Option ℕ) (left : Plan)
    → Distinct left.views
    → tiled left.tiles ≡ tiled p.tiles ++ take k (remaining p at)
    → remaining left next ≡ drop k (remaining p at)
    → k < length (remaining p at)
    → PassesOver k p at (grid_return next left)
unfolding grid_return remaining
pass_over_at k p at none left once o r h =
    absurd (omega (arith, ap length r, length-drop k (remaining p at)))
pass_over_at k p at (some v) left once o r h = record {
  next = scan_next_tileable_view v left;
  left = left;
  returns = refl;
  order = o;
  rest = (scan_rest v left once).0 ∙ drop_next k v (remaining p at) _ r;
}

pass_over :
    (k : ℕ) (p : Plan) (at : Option ℕ) (outcome : Outcome)
    → Distinct p.views
    → Takes k p at outcome
    → k < length (remaining p at)
    → PassesOver k p at (and_then outcome grid_return)
pass_over k p at outcome once t h =
    subst (λ o. PassesOver k p at (and_then o grid_return)) (sym t.returns)
      (pass_over_at k p at t.next t.left (subst Distinct (sym t.views) once) t.order t.rest h)

module _ (accepts : ℕ → Box → Bool) (m : Margins) where
  -- A grid for at least two views that has fewer cells than there are views left does not tile the
  -- view that is next when its cells are full: it returns the one behind it. The sheet's views are
  -- linked once, and it begins at a tileable view.
  pub grid_layout-PassesOver :
      (frame : Box) (first n : ℕ) (p : Plan)
      → Distinct p.views
      → p.tileable first ≡ true
      → mem first p.views ≡ true
      → 2 ≤ n
      → (grid_size n).0 * (grid_size n).1 < length (remaining p (some first))
      → PassesOver
          ((grid_size n).0 * (grid_size n).1)
          p
          (some first)
          (grid_layout accepts m frame first n p)
  unfolding grid_layout
  grid_layout-PassesOver frame first zero p once can there h few = absurd (omega arith)
  grid_layout-PassesOver frame first (suc zero) p once can there h few = absurd (omega arith)
  grid_layout-PassesOver frame first (suc (suc k)) p once can there h few =
      subst (λ j. PassesOver j p (some first) (grid_layout accepts m frame first (suc (suc k)) p))
        (omega arith)
        (pass_over _ p (some first) _ once
          (cells-Takes accepts m frame first (suc (suc k)) p once can there) (omega arith))
