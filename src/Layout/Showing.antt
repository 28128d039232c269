-- ===== src/Layout/Showing.antt =====
-- `show_tileable` (sheet.c): which views a layout unhides, and where they come to stand.
use hikari_sakura.Prelude.{
  ℕ, Bool, true, false, not, ◌&&◌, ◌||◌, ◌==◌, if◌then◌else◌, List, [], ◌∷◌, ◌++◌, reverse, ◌≡◌,
  refl, ap, sym, ◌∙◌, arith, Bool-cases, inl, inr,
}
use mathlib.Core.List.{reverse-cons}
use hikari_sakura.Stacking.Links.{mem, remove, relink, Distinct, relink-Distinct}
use hikari_sakura.Layout.Plan.{Plan, view_show}
use hikari_sakura.Layout.Scan.{select}
use hikari_sakura.Layout.Apply.{show_each, show_tileable}

-- The same walk by recursion on the list itself.
unfoldable show_behind : (ℕ → Bool) → List ℕ → Plan → Plan
unfolding view_show
show_behind shows [] p = p
show_behind shows (v ∷ vs) p =
    let q = show_behind shows vs p in if q.hidden v && shows v then view_show v q else q

show_each-append :
    (shows : ℕ → Bool) (xs : List ℕ) (v : ℕ) (p : Plan)
    → show_each shows (xs ++ v ∷ []) p
      ≡ (let q = show_each shows xs p in if q.hidden v && shows v then view_show v q else q)
unfolding show_each
show_each-append shows [] v p = refl
show_each-append shows (x ∷ xs) v p = show_each-append shows xs v _

show_each-reverse :
    (shows : ℕ → Bool) (xs : List ℕ) (p : Plan)
    → show_each shows (reverse xs) p ≡ show_behind shows xs p
unfolding show_each show_behind
show_each-reverse shows [] p = refl
show_each-reverse shows (x ∷ xs) p =
    ap (λ l. show_each shows l p) (reverse-cons x xs)
    ∙ show_each-append shows (reverse xs) x p
    ∙ ap (λ q. if q.hidden x && shows x then view_show x q else q) (show_each-reverse shows xs p)

select-same :
    (t s : ℕ → Bool) (xs : List ℕ)
    → ((u : ℕ) → mem u xs ≡ true → t u ≡ s u)
    → select t xs ≡ select s xs
unfolding select mem
select-same t s [] h = refl
select-same t s (x ∷ xs) h =
    let here = h x (ground arith) in
    let later = select-same t s xs (λ u there. h u (ground arith)) in rw (here, later) refl

remove-append : (v : ℕ) (xs ys : List ℕ) → remove v (xs ++ ys) ≡ remove v xs ++ remove v ys
unfolding remove
remove-append v [] ys = refl
remove-append v (x ∷ xs) ys = ground (arith, remove-append v xs ys)

remove-select :
    (v : ℕ) (t : ℕ → Bool) (xs : List ℕ)
    → remove v (select t xs) ≡ select (λ u. t u && not (u == v)) xs
unfolding remove select
remove-select v t [] = refl
remove-select v t (x ∷ xs) = ground (arith, remove-select v t xs)

select_all_other :
    (v : ℕ) (t : ℕ → Bool) (xs : List ℕ)
    → mem v xs ≡ false
    → select (λ u. t u && not (u == v)) xs ≡ select t xs
unfolding mem select
select_all_other v t [] h = refl
select_all_other v t (x ∷ xs) h = ground (arith, select_all_other v t xs)

select_everything : (t : ℕ → Bool) (xs : List ℕ) → ((u : ℕ) → t u ≡ true) → select t xs ≡ xs
unfolding select
select_everything t [] h = refl
select_everything t (x ∷ xs) h = rw (h x, select_everything t xs h) refl

other_here :
    (t : ℕ → Bool) (u v : ℕ) (b : Bool)
    → t v ≡ true
    → (not (t u && b) && not (u == v)) ≡ not (t u && (u == v || b))
other_here t u v b h = ground arith

other_past :
    (t : ℕ → Bool) (u v : ℕ) (b : Bool) → t v ≡ false → not (t u && b) ≡ not (t u && (u == v || b))
other_past t u v b h = ground arith

-- The hidden ones of some views that are to be shown.
abbrev to_show : (ℕ → Bool) → Plan → ℕ → Bool
to_show shows p u = p.hidden u && shows u

-- The plan after the walk over some of its views.
record Walked (shows : ℕ → Bool) (vs : List ℕ) (p q : Plan) : Type 0 where
  order :
      q.views
      ≡ select (to_show shows p) vs ++ select (λ u. not (to_show shows p u && mem u vs)) p.views
  hidden : (u : ℕ) → q.hidden u ≡ (p.hidden u && not (shows u && mem u vs))
  tileable : q.tileable ≡ p.tileable
  tiles : q.tiles ≡ p.tiles
  once : Distinct q.views

Walked-nothing : (shows : ℕ → Bool) (p : Plan) → Distinct p.views → Walked shows [] p p
unfolding mem select
Walked-nothing shows p once = record {
  order = sym (select_everything _ p.views (λ u. ground arith));
  hidden = λ u. ground arith;
  tileable = refl;
  tiles = refl;
  once = once;
}

Walked-shown :
    (shows : ℕ → Bool) (v : ℕ) (vs : List ℕ) (p q : Plan)
    → mem v vs ≡ false
    → to_show shows p v ≡ true
    → Walked shows vs p q
    → Walked shows (v ∷ vs) p (view_show v q)
unfolding mem select relink view_show
Walked-shown shows v vs p q new hid w = record {
  order = rw hid (
      ap (λ l. v ∷ l)
        (ap (remove v) w.order
          ∙ remove-append v (select (to_show shows p) vs)
              (select (λ u. not (to_show shows p u && mem u vs)) p.views)
          ∙ cc (
            remove-select v (to_show shows p) vs,
            select_all_other v (to_show shows p) vs new,
            remove-select v (λ u. not (to_show shows p u && mem u vs)) p.views,
            select-same (λ u. not (to_show shows p u && mem u vs) && not (u == v))
                (λ u. not (to_show shows p u && mem u (v ∷ vs))) p.views
                (λ u there. other_here (to_show shows p) u v (mem u vs) hid),
          )));
  hidden = λ u. ground (arith, w.hidden u);
  tileable = w.tileable;
  tiles = w.tiles;
  once = relink-Distinct true v q.views w.once;
}

Walked-past :
    (shows : ℕ → Bool) (v : ℕ) (vs : List ℕ) (p q : Plan)
    → to_show shows p v ≡ false
    → Walked shows vs p q
    → Walked shows (v ∷ vs) p q
unfolding mem select
Walked-past shows v vs p q seen w = record {
  order = rw seen (
      w.order
      ∙ ap (λ l. select (to_show shows p) vs ++ l)
          (select-same _ _ p.views (λ u there. other_past (to_show shows p) u v (mem u vs) seen)));
  hidden = λ u. ground (arith, w.hidden u);
  tileable = w.tileable;
  tiles = w.tiles;
  once = w.once;
}

same_test : (a b c : Bool) → c ≡ false → ((a && not (b && c)) && b) ≡ (a && b)
same_test a b c h = ground arith

show_behind-Walked :
    (shows : ℕ → Bool) (vs : List ℕ) (p : Plan)
    → Distinct vs
    → Distinct p.views
    → Walked shows vs p (show_behind shows vs p)
unfolding show_behind
show_behind-Walked shows [] p d once = Walked-nothing shows p once
show_behind-Walked shows (v ∷ vs) p d once =
    let w = show_behind-Walked shows vs p d.1 once in
    let same = same_test (p.hidden v) (shows v) (mem v vs) d.0 in
    elim (Bool-cases (to_show shows p v)) [
      | inl yes' ↦ rw (w.hidden v, same, yes') (Walked-shown shows v vs p _ d.0 yes' w)
      | inr no' ↦ rw (w.hidden v, same, no') (Walked-past shows v vs p _ no' w)
    ]

-- Showing the views of a sheet moves those that are hidden, and are neither forced, floating nor
-- invisible, to the front, keeps both these and the others in their order, and unhides no other.
-- The sheet's views are linked once.
pub show_tileable_lem :
    (shows : ℕ → Bool) (p : Plan)
    → Distinct p.views
    → let q = show_tileable shows p in
      (q.views
        ≡ select (λ u. p.hidden u && shows u) p.views
          ++ select (λ u. not (p.hidden u && shows u)) p.views)
      × ((u : ℕ) → q.hidden u ≡ (p.hidden u && not (shows u && mem u p.views)))
      × (q.tileable ≡ p.tileable)
      × (q.tiles ≡ p.tiles)
      × Distinct q.views
unfolding show_tileable
show_tileable_lem shows p once =
    let w = show_behind-Walked shows p.views p once once in
    rw (show_each-reverse shows p.views p) (
      w.order
          ∙ ap (λ l. select (to_show shows p) p.views ++ l)
              (select-same _ _ p.views (λ u there. ground arith)),
      w.hidden,
      w.tileable,
      w.tiles,
      w.once,
    )
