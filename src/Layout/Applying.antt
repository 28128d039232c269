-- ===== src/Layout/Applying.antt =====
-- `hikari_sheet_apply_split` (sheet.c): which views of a sheet its layout tiles, and in which order.
use hikari_sakura.Prelude.{
  ℕ, zero, suc, ◌≤◌, Bool, true, false, not, ◌&&◌, if◌then◌else◌, List, [], ◌∷◌, ◌++◌, reverse,
  Option, none, some, ◌≡◌, refl, ap, sym, ◌∙◌, subst, arith, length, take, take_all, min, ◌⊎◌, inl,
  inr,
}
use mathlib.Core.List.{append-nil}
use hikari_sakura.Stacking.Links.{mem, mem-append, relink, Distinct}
use hikari_sakura.Geometry.{Box, Margins}
use hikari_sakura.Geometry.Double.{DoubleArith}
use hikari_sakura.Layout.Plan.{Plan, Outcome, done, and_then}
use hikari_sakura.Layout.Scan.{select, remaining, tiled, first_tileable_lem}
use hikari_sakura.Layout.Takes.{Shown, Takes}
use hikari_sakura.Layout.Split.{Split, split_apply}
use hikari_sakura.Layout.Splitting.{capacity, Roomy, apply_split-Takes}
use hikari_sakura.Layout.Apply.{
  show_tileable, show_first, first_tileable_view, raise_each, raise_floating, Flags, SheetLayout,
  taken_split, is_settling, lay_out, sheet_apply_split,
}
use hikari_sakura.Layout.Showing.{show_tileable_lem}

-- The tiles that a sheet's views get when it is laid out: the first `n` of those views that can
-- have one, in the order of `views`, and each once.
pub record LaysOut (n : ℕ) (p : Plan) (views : List ℕ) (outcome : Outcome) : Type 0 where
  pub next : Option ℕ
  pub left : Plan
  pub returns : outcome ≡ done next left
  pub order : tiled left.tiles ≡ tiled p.tiles ++ take n (select p.tileable views)
  pub once : Distinct (take n (select p.tileable views))

-- The order in which a layout takes the views of a sheet: those that it unhides first, then the
-- others, and both as they stand on the sheet.
abbrev pub hidden_first : (ℕ → Bool) → Plan → List ℕ
hidden_first shows p =
    select (λ u. p.hidden u && shows u) p.views ++ select (λ u. not (p.hidden u && shows u)) p.views

take-min : {A : Type 0} → (n : ℕ) (xs : List A) → take (min n (length xs)) xs ≡ take n xs
take-min n xs = elim (le_total n (length xs)) [
  | inl less ↦ ap (λ k. take k xs) (omega arith)
  | inr more ↦
      ap (λ k. take k xs) (omega arith)
      ∙ take_all (length xs) xs (omega arith)
      ∙ sym (take_all n xs more)
]
  where
    le_total : (a b : ℕ) → (a ≤ b) ⊎ (b ≤ a)
    le_total a b = ground arith

mem-select : (u : ℕ) (t : ℕ → Bool) (xs : List ℕ) → mem u (select t xs) ≡ (mem u xs && t u)
unfolding mem select
mem-select u t [] = refl
mem-select u t (x ∷ xs) = ground (arith, mem-select u t xs)

take-Distinct : (n : ℕ) (xs : List ℕ) → Distinct xs → Distinct (take n xs)
unfolding mem
take-Distinct zero xs d = tt
take-Distinct (suc n) [] d = tt
take-Distinct (suc n) (x ∷ xs) d = (absent n xs d.0, take-Distinct n xs d.1)
  where
    absent : (n : ℕ) (xs : List ℕ) → mem x xs ≡ false → mem x (take n xs) ≡ false
    absent zero xs h = refl
    absent (suc n) [] h = refl
    absent (suc n) (y ∷ ys) h = ground (arith, h, absent n ys)

select-Distinct : (t : ℕ → Bool) (xs : List ℕ) → Distinct xs → Distinct (select t xs)
unfolding select
select-Distinct t [] d = d
select-Distinct t (x ∷ xs) d = ground (arith, select-Distinct t xs, mem-select x t xs)

raise_each_tiles :
    (floating : ℕ → Bool) (vs : List ℕ) (p : Plan) → (raise_each floating vs p).tiles ≡ p.tiles
unfolding raise_each
raise_each_tiles floating [] p = refl
raise_each_tiles floating (v ∷ vs) p =
    raise_each_tiles floating vs _ ∙ same (not (p.hidden v) && floating v)
  where
    same :
        (b : Bool) → (if b then record p { views = relink true v p.views } else p).tiles ≡ p.tiles
    same true = refl
    same false = refl

module _ (D : DoubleArith) (accepts : ℕ → Box → Bool) (view_geometry : ℕ → Box) (m : Margins)
    (flags : Flags) where
  -- The views that may get a tile are shown where they are hidden.
  abbrev pub Settled : Plan → Type 0
  Settled p = (u : ℕ) → (p.tileable u && not (flags.shows u)) ≡ false

  Shown-show_tileable :
      (p : Plan) → Distinct p.views → Settled p → Shown (show_tileable flags.shows p)
  unfolding mem
  Shown-show_tileable p once settled u =
      let (order, hidden, tileable, tiles, d) = show_tileable_lem flags.shows p once in
      let t : ℕ → Bool = λ v. p.hidden v && flags.shows v in
      ground (
        arith,
        settled u,
        hidden u,
        ap (λ f. f u) tileable,
        ap (λ l. mem u l) order,
        mem-append u (select t p.views) (select (λ v. not (t v)) p.views),
        mem-select u t p.views,
        mem-select u (λ v. not (t v)) p.views,
      )

  no_view :
      (n : ℕ) (p q : Plan)
      → Distinct q.views
      → q.tiles ≡ p.tiles
      → select p.tileable q.views ≡ []
      → LaysOut n p q.views (raise_floating flags.floating none q)
  unfolding raise_floating
  no_view n p q once same nothing = record {
    next = none;
    left = raise_each flags.floating (reverse q.views) q;
    returns = refl;
    order = rw nothing (
        ap tiled (raise_each_tiles flags.floating (reverse q.views) q ∙ same)
        ∙ sym (append-nil (tiled p.tiles))
        ∙ ap (λ l. tiled p.tiles ++ l) (sym (take_all n [] (omega arith))));
    once = take-Distinct n _ (select-Distinct p.tileable q.views once);
  }

  some_views :
      (n w : ℕ) (p q : Plan) (outcome : Outcome)
      → Distinct q.views
      → q.tiles ≡ p.tiles
      → remaining q (some w) ≡ select p.tileable q.views
      → Takes (min n (length (remaining q (some w)))) q (some w) outcome
      → LaysOut n p q.views (and_then outcome (raise_floating flags.floating))
  unfolding raise_floating
  some_views n w p q outcome once same all t = rw t.returns (record {
    next = t.next;
    left = raise_each flags.floating (reverse t.left.views) t.left;
    returns = refl;
    order =
        ap tiled (raise_each_tiles flags.floating (reverse t.left.views) t.left)
        ∙ t.order
        ∙ cc (ap tiled same, take-min n (remaining q (some w)), all);
    once = take-Distinct n _ (select-Distinct p.tileable q.views once);
  })

  split_apply-LaysOut :
      (split : Split D) (area : Box) (p q : Plan)
      → Distinct q.views
      → Shown q
      → q.tileable ≡ p.tileable
      → q.tiles ≡ p.tiles
      → Roomy D split (length (select p.tileable q.views))
      → LaysOut (capacity D split) p q.views (
          and_then
            (and_then (first_tileable_view q) (split_apply D accepts view_geometry m split area))
            (raise_floating flags.floating))
  unfolding first_tileable_view show_first split_apply remaining
  split_apply-LaysOut split area p q once shown same_tileable same_tiles roomy =
      elim (first_tileable_lem q.tileable q.views) [
        | inl (a, b) ↦ rw a (
            no_view (capacity D split) p q once same_tiles
              (ap (λ t. select t q.views) (sym same_tileable) ∙ b))
        | inr (w, a, b, c, e) ↦
            let all = sym e ∙ ap (λ t. select t q.views) same_tileable in
            rw (a, seen w b c)
              (some_views (capacity D split) w p (record q { center = true }) _ once same_tiles all
                (apply_split-Takes D accepts view_geometry m split _ (some w)
                  (record q { center = true }) once (b, c) shown
                  (subst (λ l. Roomy D split (length l)) (sym all) roomy)))
      ]
    where
      seen : (w : ℕ) → mem w q.views ≡ true → q.tileable w ≡ true → q.hidden w ≡ false
      seen w b c = ground (arith, shown w)

  -- The tiles of the views that `show_tileable` leaves.
  abbrev lay_out_shown : Split D → Box → Plan → Outcome
  lay_out_shown split area p =
      let q = show_tileable flags.shows p in
      and_then (and_then (first_tileable_view q) (split_apply D accepts view_geometry m split area))
        (raise_floating flags.floating)

  -- A sheet that has no tile under way is laid out by its split, or by a copy of the new one: of its
  -- views that can have a tile as many as the split has room for get one, each once; those come first
  -- that are hidden and are to be shown, then the others, and both in the order of the sheet. No view
  -- is forced, the sheet's views are linked once, every container is for one view at least, and grids
  -- have room for all that comes to them.
  pub sheet_apply_split-LaysOut :
      (layout : Option (SheetLayout D)) (split : Split D) (same : Bool) (area : Box) (p : Plan)
      → is_settling D flags.dirty layout ≡ false
      → Distinct p.views
      → Settled p
      → let taken = taken_split D layout split same in
        Roomy D taken (length (select p.tileable (hidden_first flags.shows p)))
        → LaysOut
            (capacity D taken)
            p
            (hidden_first flags.shows p)
            (sheet_apply_split D accepts view_geometry m flags layout split same area p)
  unfolding sheet_apply_split lay_out
  sheet_apply_split-LaysOut layout split same area p calm once settled roomy =
      let (order, hidden, tileable, tiles, d) = show_tileable_lem flags.shows p once in
      rw calm (
        subst
          (λ views.
            LaysOut (capacity D (taken_split D layout split same)) p views
              (lay_out_shown (taken_split D layout split same) area p))
          order
          (split_apply-LaysOut (taken_split D layout split same) area p
            (show_tileable flags.shows p) d (Shown-show_tileable p once settled) tileable tiles
            (subst
              (λ views.
                Roomy D (taken_split D layout split same) (length (select p.tileable views)))
              (sym order) roomy)))
