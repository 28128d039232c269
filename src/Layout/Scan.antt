-- ===== src/Layout/Scan.antt =====
-- The walk of a layout over a sheet's views: what is still to be tiled, and in which order.
use hikari_sakura.Prelude.{
  ℕ, Bool, true, false, if◌then◌else◌, List, [], ◌∷◌, ◌++◌, Option, none, some, ◌≡◌, refl, ap,
  arith, ◌⊎◌, Bool-cases, inl, inr,
}
use hikari_sakura.Stacking.Links.{mem, Distinct}
use hikari_sakura.Stacking.State.{update}
use hikari_sakura.Layout.Plan.{Tile, Plan, after, first_tileable}

-- The tileable ones of some views.
unfoldable pub select : (ℕ → Bool) → List ℕ → List ℕ
select t [] = []
select t (x ∷ xs) = let rest = select t xs in if t x then x ∷ rest else rest

-- The views that a layout has still to tile where it stands at a view, or at none.
unfoldable pub remaining : Plan → Option ℕ → List ℕ
unfolding select after
remaining p none = []
remaining p (some v) = v ∷ select p.tileable (after v p.views)

-- The views that have a tile, in the order in which they got it.
abbrev pub tiled : List Tile → List ℕ
tiled [] = []
tiled (t ∷ ts) = t.view ∷ tiled ts

pub tiled-append : (xs ys : List Tile) → tiled (xs ++ ys) ≡ tiled xs ++ tiled ys
tiled-append [] ys = refl
tiled-append (x ∷ xs) ys = ap (λ l. x.view ∷ l) (tiled-append xs ys)

pub mem-after : (w v : ℕ) (xs : List ℕ) → mem w (after v xs) ≡ true → mem w xs ≡ true
unfolding mem after
mem-after w v [] h = ground arith
mem-after w v (x ∷ xs) h = ground (arith, mem-after w v xs)

pub after-after :
    (w v : ℕ) (xs : List ℕ)
    → Distinct xs
    → mem w (after v xs) ≡ true
    → after w xs ≡ after w (after v xs)
unfolding mem after
after-after w v [] d h = refl
after-after w v (x ∷ xs) d h = ground (arith, after-after w v xs d.1, mem-after w v xs)

pub not_after : (v : ℕ) (xs : List ℕ) → Distinct xs → mem v (after v xs) ≡ false
unfolding mem after
not_after v [] d = refl
not_after v (x ∷ xs) d = ground (arith, not_after v xs d.1)

pub select-update :
    (t : ℕ → Bool) (v : ℕ) (b : Bool) (xs : List ℕ)
    → mem v xs ≡ false
    → select (update t v b) xs ≡ select t xs
unfolding mem select
select-update t v b [] h = refl
select-update t v b (x ∷ xs) h = ground (arith, select-update t v b xs)

-- The first tileable view of a list, and the tileable ones behind it.
pub first_tileable_lem :
    (t : ℕ → Bool) (xs : List ℕ)
    → ((first_tileable t xs ≡ none) × (select t xs ≡ []))
      ⊎ ((w : ℕ) × (first_tileable t xs ≡ some w)
          × (mem w xs ≡ true)
          × (t w ≡ true)
          × (select t xs ≡ w ∷ select t (after w xs)))
unfolding first_tileable select mem after
first_tileable_lem t [] = inl (refl, refl)
first_tileable_lem t (x ∷ xs) = elim (Bool-cases (t x)) [
  | inl yes' ↦ inr (x, ground arith, ground arith, yes', ground arith)
  | inr no' ↦ elim (first_tileable_lem t xs) [
    | inl (a, b) ↦ inl (ground arith, ground arith)
    | inr (w, a, b, c, e) ↦ inr (w, ground arith, ground arith, c, ground arith)
  ]
]
