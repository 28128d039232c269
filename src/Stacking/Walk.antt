-- ===== src/Stacking/Walk.antt =====
-- `wl_list_for_each_reverse_safe` over a list that its body restacks. The walk goes on from the
-- link before the current one, read before the body runs, and so comes back to the links that the
-- body has moved to the front.
use hikari_sakura.Prelude.{
  ℕ, zero, suc, ◌+◌, ◌*◌, ◌<◌, true, false, ◌==◌, ◌||◌, List, [], ◌∷◌, ◌++◌, Option, none, some,
  ◌≡◌, refl, sym, ◌∙◌, ap, ◌⊎◌, inl, inr, arith, if◌then◌else◌, length, length-append, All, subst,
}
use mathlib.Core.List.{append-nil}
use hikari_sakura.Stacking.Links.{
  mem, remove, Distinct, remove_absent, relink, relink-Distinct, remove-Distinct,
}

-- `prev`, of a link in a list; none at the list's head.
unfoldable pub before : Option ℕ → ℕ → List ℕ → Option ℕ
before p v [] = none
before p v (x ∷ xs) = if x == v then p else before (some x) v xs

abbrev pub head? : List ℕ → Option ℕ
head? [] = none
head? (x ∷ xs) = some x

-- The first list reversed, onto the second.
abbrev pub onto : List ℕ → List ℕ → List ℕ
onto [] ys = ys
onto (z ∷ zs) ys = onto zs (z ∷ ys)

abbrev pub back? : List ℕ → Option ℕ
back? xs = head? (onto xs [])

module _ {ℓ} {S : Type ℓ} (list : S → List ℕ) (body : ℕ → S → S) where
  unfoldable pub walk_from : ℕ → Option ℕ → S → S
  unfolding before
  walk_from zero pos s = s
  walk_from (suc f) none s = s
  walk_from (suc f) (some v) s = walk_from f (before none v (list s)) (body v s)

  -- The whole loop. A link is met twice at most, so the fuel is enough.
  unfoldable pub walk : S → S
  unfolding walk_from
  walk s = walk_from (suc (2 * length (list s))) (back? (list s)) s

  -- The body at each of some links, in their order.
  unfoldable pub each : List ℕ → S → S
  each [] s = s
  each (v ∷ vs) s = each vs (body v s)

pub mem-onto : (u : ℕ) (zs ys : List ℕ) → mem u (onto zs ys) ≡ (mem u zs || mem u ys)
unfolding mem
mem-onto u [] ys = refl
mem-onto u (z ∷ zs) ys = ground (arith, mem-onto u zs (z ∷ ys))

onto-append : (xs ys zs : List ℕ) → onto (xs ++ ys) zs ≡ onto ys (onto xs zs)
onto-append [] ys zs = refl
onto-append (x ∷ xs) ys zs = onto-append xs ys (x ∷ zs)

-- In a list without repetition the two parts have no element in common.
onto-apart :
    (zs ys : List ℕ)
    → Distinct (onto zs ys)
    → Distinct ys × ((u : ℕ) → mem u ys ≡ true → mem u zs ≡ false)
unfolding mem
onto-apart [] ys d = (d, λ u h. refl)
onto-apart (z ∷ zs) ys d =
    let rest = onto-apart zs (z ∷ ys) d in (rest.0.1, λ u h. ground (arith, rest.0.0, rest.1 u))

abbrev head_or : List ℕ → Option ℕ → Option ℕ
head_or [] p = p
head_or (z ∷ zs) p = some z

-- The link before the first of the second part is the last of the first.
before-onto :
    (p : Option ℕ) (zs : List ℕ) (r : ℕ) (ys : List ℕ)
    → mem r zs ≡ false
    → before p r (onto zs ys) ≡ before (head_or zs p) r ys
unfolding mem before
before-onto p [] r ys out = refl
before-onto p (z ∷ zs) r ys out = ground (arith, before-onto p zs r (z ∷ ys))

before_here :
    (zs : List ℕ) (r : ℕ) (ys : List ℕ)
    → mem r zs ≡ false
    → before none r (onto zs (r ∷ ys)) ≡ head? zs
unfolding before
before_here [] r ys out = ground (arith, before-onto none [] r (r ∷ ys) out)
before_here (z ∷ zs) r ys out = ground (arith, before-onto none (z ∷ zs) r (r ∷ ys) out)

remove-onto :
    (r : ℕ) (zs ys : List ℕ) → mem r zs ≡ false → remove r (onto zs ys) ≡ onto zs (remove r ys)
unfolding mem remove
remove-onto r [] ys out = refl
remove-onto r (z ∷ zs) ys out = ground (arith, remove-onto r zs (z ∷ ys))

-- Where a link stands in a list without repetition, cut at it.
cut_at :
    (r : ℕ) (rs ms ys l : List ℕ)
    → l ≡ onto ms (onto rs (r ∷ ys))
    → Distinct l
    → (mem r (rs ++ ms) ≡ false) × (l ≡ onto (rs ++ ms) (r ∷ ys)) × (mem r ys ≡ false)
unfolding mem
cut_at r rs ms ys l e d =
    let e' = e ∙ sym (onto-append rs ms (r ∷ ys)) in
    let apart = onto-apart (rs ++ ms) (r ∷ ys) (subst Distinct e' d) in
    (apart.1 r (ground arith), e', apart.0.0)

before_cut :
    (r : ℕ) (rs ms ys l : List ℕ)
    → l ≡ onto ms (onto rs (r ∷ ys))
    → Distinct l
    → before none r l ≡ head? (rs ++ ms)
before_cut r rs ms ys l e d =
    let cut = cut_at r rs ms ys l e d in
    ap (before none r) cut.1 ∙ before_here (rs ++ ms) r ys cut.0

remove_first : (r : ℕ) (ys : List ℕ) → mem r ys ≡ false → remove r (r ∷ ys) ≡ ys
unfolding remove
remove_first r ys out = ground (arith, remove_absent r ys)

removed_list :
    (r : ℕ) (rs ms ys l : List ℕ)
    → l ≡ onto ms (onto rs (r ∷ ys))
    → Distinct l
    → remove r l ≡ onto ms (onto rs ys)
removed_list r rs ms ys l e d =
    let cut = cut_at r rs ms ys l e d in
    cc (
      ap (remove r) cut.1,
      remove-onto r (rs ++ ms) (r ∷ ys) cut.0,
      remove_first r ys cut.2,
      onto-append rs ms ys,
    )

moved_list :
    (r : ℕ) (rs ms ys l : List ℕ)
    → l ≡ onto ms (onto rs (r ∷ ys))
    → Distinct l
    → relink true r l ≡ onto (ms ++ r ∷ []) (onto rs ys)
unfolding relink
moved_list r rs ms ys l e d =
    let cut = cut_at r rs ms ys l e d in
    cc (
      ap (λ k. r ∷ remove r k) cut.1,
      remove-onto r (rs ++ ms) (r ∷ ys) cut.0,
      remove_first r ys cut.2,
      onto-append rs ms ys,
      onto-append ms (r ∷ []) (onto rs ys),
    )

-- What a body does that the walk can meet twice: it leaves the list as it is, takes the link out
-- or moves it to the front, and does nothing at a link where it has been.
pub record Settles {ℓ κ} {S : Type ℓ} (list : S → List ℕ) (body : ℕ → S → S) (Done : ℕ → S → Type κ)
    : Type (ℓ ⊔ κ) where
  pub stays : (u v : ℕ) (s : S) → Done u s → Done u (body v s)
  pub idle : (v : ℕ) (s : S) → Done v s → body v s ≡ s
  pub moves :
      (v : ℕ) (s : S)
      → (list (body v s) ≡ list s)
        ⊎ (list (body v s) ≡ remove v (list s))
        ⊎ ((list (body v s) ≡ relink true v (list s)) × Done v (body v s))

module _ {ℓ κ} {S : Type ℓ} (list : S → List ℕ) (body : ℕ → S → S) (Done : ℕ → S → Type κ)
    (settles : Settles list body Done) where
  still_done :
      (v : ℕ) (s : S) (ms : List ℕ) → All (λ u. Done u s) ms → All (λ u. Done u (body v s)) ms
  still_done v s [] a = tt
  still_done v s (m ∷ ms) a = (settles.stays m v s a.0, still_done v s ms a.1)

  done_appended :
      (s : S) (ms : List ℕ) (v : ℕ)
      → All (λ u. Done u s) ms
      → Done v s
      → All (λ u. Done u s) (ms ++ v ∷ [])
  done_appended s [] v a d = (d, tt)
  done_appended s (m ∷ ms) v a d = (a.0, done_appended s ms v a.1 d)

  -- The walk back over links where the body has been changes nothing.
  walk_idle :
      (f : ℕ) (ms ys : List ℕ) (s : S)
      → list s ≡ onto ms ys
      → Distinct (list s)
      → All (λ u. Done u s) ms
      → walk_from list body f (head? ms) s ≡ s
  unfolding walk_from mem
  walk_idle zero ms ys s e d a = refl
  walk_idle (suc f) [] ys s e d a = refl
  walk_idle (suc f) (m ∷ ms) ys s e d a =
      let apart = onto-apart ms (m ∷ ys) (subst Distinct e d) in
      rw (settles.idle m s a.0, e, before_here ms m ys (apart.1 m (ground arith)))
        (walk_idle f ms (m ∷ ys) s e d a.1)

  -- Where the walk stands: at the next link that is still to come, then at those that have moved.
  abbrev Stands : Option ℕ → List ℕ → List ℕ → Type 0
  Stands pos rs ms = (pos ≡ head? (rs ++ ms)) ⊎ ((rs ≡ []) × (pos ≡ none))

  resumes_at : (r : ℕ) (rs ms : List ℕ) → Stands (head? (rs ++ ms)) rs (ms ++ r ∷ [])
  resumes_at r [] [] = inr (refl, refl)
  resumes_at r [] (m ∷ ms) = inl refl
  resumes_at r (x ∷ rs) ms = inl refl

  -- Each link that is still to come is met once before the walk comes back to those that moved.
  walk_each :
      (f : ℕ) (pos : Option ℕ) (rs ms ys : List ℕ) (s : S)
      → length rs + length rs + length ms < f
      → Stands pos rs ms
      → list s ≡ onto ms (onto rs ys)
      → Distinct (list s)
      → All (λ u. Done u s) ms
      → walk_from list body f pos s ≡ each list body rs s
  unfolding walk_from each mem
  walk_each zero pos rs ms ys s h st e d a = absurd (omega arith)
  walk_each (suc f) pos [] ms ys s h (inl p) e d a = rw p (walk_idle (suc f) ms ys s e d a)
  walk_each (suc f) pos [] ms ys s h (inr p) e d a = rw p.1
  walk_each (suc f) pos (r ∷ rs) ms ys s h (inr p) e d a = cc
  walk_each (suc f) pos (r ∷ rs) ms ys s h (inl p) e d a =
      rw (p, before_cut r rs ms ys (list s) e d)
        (elim (settles.moves r s) [
          | inl same ↦
              walk_each f (head? (rs ++ ms)) rs ms (r ∷ ys) (body r s) (omega arith) (inl refl)
                (same ∙ e) (subst Distinct (sym same) d) (still_done r s ms a)
          | inr (inl removed) ↦
              walk_each f (head? (rs ++ ms)) rs ms ys (body r s) (omega arith) (inl refl)
                (removed ∙ removed_list r rs ms ys (list s) e d)
                (subst Distinct (sym removed) (remove-Distinct r (list s) d)) (still_done r s ms a)
          | inr (inr moved) ↦
              walk_each f (head? (rs ++ ms)) rs (ms ++ r ∷ []) ys (body r s)
                (omega (arith, length-append ms (r ∷ []))) (resumes_at r rs ms)
                (moved.0 ∙ moved_list r rs ms ys (list s) e d)
                (subst Distinct (sym moved.0) (relink-Distinct true r (list s) d))
                (done_appended (body r s) ms r (still_done r s ms a) moved.1)
        ])

  onto-nil : (xs ys : List ℕ) → onto (onto xs ys) [] ≡ onto ys xs
  onto-nil [] ys = refl
  onto-nil (x ∷ xs) ys = onto-nil xs (x ∷ ys)

  length-onto : (xs ys : List ℕ) → length (onto xs ys) ≡ length xs + length ys
  length-onto [] ys = omega arith
  length-onto (x ∷ xs) ys = omega (arith, length-onto xs (x ∷ ys))

  -- The loop runs its body once at each link of the list, from the last to the first, whatever it
  -- moves to the front meanwhile.
  pub walk_lem :
      (s : S) → Distinct (list s) → walk list body s ≡ each list body (onto (list s) []) s
  unfolding walk
  walk_lem s d =
      walk_each (suc (2 * length (list s))) (back? (list s)) (onto (list s) []) [] [] s
        (omega (arith, length-onto (list s) []))
        (inl (ap head? (sym (append-nil (onto (list s) []))))) (sym (onto-nil (list s) [])) d tt
