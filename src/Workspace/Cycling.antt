-- ===== src/Workspace/Cycling.antt =====
-- The search for a sheet that has views (`CYCLE_INHABITED`, sheet.c): when its loop ends, and where.
use hikari_sakura.Prelude.{
  ℕ, zero, suc, ◌+◌, ◌-◌, ◌*◌, ◌%◌, ◌<◌, ◌≤◌, Bool, true, false, not, ◌==◌, ◌&&◌, ◌≡◌, refl, arith,
  List, Option, none, some, inl, inr, ◌⊎◌, subst, ◌∙◌, Bool-cases,
}
use hikari_sakura.Stacking.Links.{is_empty}
use hikari_sakura.Stacking.State.{workspace_of, nr_of}
use hikari_sakura.Workspace.Sheets.{
  sheet_at, next, prev, cycle_inhabited, next_inhabited, prev_inhabited,
}

-- A number of steps from a sheet.
abbrev pub steps : (ℕ → ℕ) → ℕ → ℕ → ℕ
steps step zero at = at
steps step (suc k) at = steps step k (step at)

-- Whether the loop ends at a sheet: it has views, or is the one where the loop began.
abbrev pub ends : (ℕ → List ℕ) → ℕ → ℕ → Bool
ends views sheet at = not (is_empty (views at) && not (at == sheet))

Nat-cases : (k : ℕ) → (k ≡ 0) ⊎ ((m : ℕ) × (k ≡ suc m))
Nat-cases zero = inl refl
Nat-cases (suc k) = inr (k, refl)

-- Where a walk that takes no more than `k + 1` steps ends: at the first sheet that ends it.
pub record Found (step : ℕ → ℕ) (views : ℕ → List ℕ) (sheet at : ℕ) (k : ℕ) (result : Option ℕ)
    : Type 0 where
  pub distance : ℕ
  pub near : distance ≤ k
  pub found : result ≡ some (steps step (suc distance) at)
  pub here : ends views sheet (steps step (suc distance) at) ≡ true
  pub not_before : (j : ℕ) → j < distance → ends views sheet (steps step (suc j) at) ≡ false

module _ (step : ℕ → ℕ) (views : ℕ → List ℕ) (sheet : ℕ) where
  none_before :
      (at d j : ℕ)
      → ((i : ℕ) → i < d → ends views sheet (steps step (suc i) (step at)) ≡ false)
      → ends views sheet (step at) ≡ false
      → j < suc d
      → ends views sheet (steps step (suc j) at) ≡ false
  none_before at d zero rest go l = go
  none_before at d (suc j) rest go l = rest j (omega arith)

  cycle_ends :
      (f k at : ℕ)
      → k < f
      → ends views sheet (steps step (suc k) at) ≡ true
      → Found step views sheet at k (cycle_inhabited step views f sheet at)
  unfolding cycle_inhabited
  cycle_ends zero k at h e = absurd (omega arith)
  cycle_ends (suc f) k at h e = elim (Bool-cases (ends views sheet (step at))) [
    | inl stop ↦ record {
      distance = 0;
      near = omega arith;
      found = ground arith;
      here = stop;
      not_before = λ j l. absurd (omega arith);
    }
    | inr go ↦ elim (Nat-cases k) [
      | inl e0 ↦ absurd (ground arith)
      | inr (k', e1) ↦
          let r =
            cycle_ends f k' (step at) (omega arith)
              (subst (λ m. ends views sheet (steps step (suc m) at) ≡ true) e1 e) in
          record {
            distance = suc r.distance;
            near = omega (arith, r.near);
            found = ground (arith, r.found);
            here = r.here;
            not_before = λ j. none_before at r.distance j r.not_before go;
          }
    ]
  ]

-- The sheets 1 to 9 are met in a ring.
pub steps-next :
    (k sheet : ℕ)
    → 1 ≤ nr_of sheet
    → steps next k sheet ≡ sheet_at (workspace_of sheet) (1 + (nr_of sheet - 1 + k) % 9)
unfolding next
steps-next zero sheet h = ground arith
steps-next (suc k) sheet h = ground (arith, steps-next k (next sheet))

pub steps-prev :
    (k sheet : ℕ)
    → 1 ≤ nr_of sheet
    → steps prev k sheet ≡ sheet_at (workspace_of sheet) (1 + (nr_of sheet - 1 + 8 * k) % 9)
unfolding prev
steps-prev zero sheet h = ground arith
steps-prev (suc k) sheet h = ground (arith, steps-prev k (prev sheet))

full_round : (sheet : ℕ) → 1 ≤ nr_of sheet → steps prev 9 sheet ≡ sheet
full_round sheet h = steps-prev 9 sheet h ∙ round_number sheet h
  where
    round_number :
        (sheet : ℕ)
        → 1 ≤ nr_of sheet
        → sheet_at (workspace_of sheet) (1 + (nr_of sheet - 1 + 8 * 9) % 9) ≡ sheet
    round_number sheet h = omega arith

ends_at : (sheet : ℕ) (views : ℕ → List ℕ) {at : ℕ} → at ≡ sheet → ends views sheet at ≡ true
ends_at sheet views e = ground arith

-- From one of the sheets 1 to 9 the search for the next inhabited sheet ends within nine steps: at
-- the first sheet in the ring that has views, or, if no other has any, where it began.
pub next_inhabited_ends :
    (views : ℕ → List ℕ) (sheet : ℕ)
    → 1 ≤ nr_of sheet
    → Found next views sheet sheet 8 (next_inhabited 9 views sheet)
unfolding next_inhabited
next_inhabited_ends views sheet h =
    cycle_ends next views sheet 9 8 sheet (omega arith)
      (ends_at sheet views (ground (arith, steps-next 9 sheet h)))

-- From one of the sheets 1 to 9 the search for the previous inhabited sheet ends within nine steps:
-- at the first sheet, going backwards, that has views, or, if no other has any, where it began.
pub prev_inhabited_ends :
    (views : ℕ → List ℕ) (sheet : ℕ)
    → 1 ≤ nr_of sheet
    → Found prev views sheet sheet 8 (prev_inhabited 9 views sheet)
unfolding prev_inhabited
prev_inhabited_ends views sheet h =
    cycle_ends prev views sheet 9 8 sheet (omega arith) (ends_at sheet views (full_round sheet h))

-- From the sheet 0 the search for the next inhabited sheet ends within nine steps if one of the
-- sheets 1 to 9 has views.
pub next_inhabited_ends_from_0 :
    (views : ℕ → List ℕ) (w m : ℕ)
    → m < 9
    → is_empty (views (sheet_at w (1 + m))) ≡ false
    → Found next views (sheet_at w 0) (sheet_at w 0) m (next_inhabited 9 views (sheet_at w 0))
unfolding next_inhabited next
next_inhabited_ends_from_0 views w m h e =
    cycle_ends next views (sheet_at w 0) 9 m (sheet_at w 0) h
      (ground (arith, steps-next m (next (sheet_at w 0))))

cycle_hangs :
    (step : ℕ → ℕ) (views : ℕ → List ℕ) (w f at : ℕ)
    → ((nr : ℕ) → 1 ≤ nr → nr ≤ 9 → is_empty (views (sheet_at w nr)) ≡ true)
    → ((x : ℕ) → workspace_of x ≡ w → (workspace_of (step x) ≡ w) × (1 ≤ nr_of (step x)))
    → workspace_of at ≡ w
    → cycle_inhabited step views f (sheet_at w 0) at ≡ none
unfolding cycle_inhabited
cycle_hangs step views w zero at none_there stays own = refl
cycle_hangs step views w (suc f) at none_there stays own =
    let rest = cycle_hangs step views w f (step at) none_there stays (stays at own).0 in
    let x : step at ≡ sheet_at w (nr_of (step at)) = ground (arith, stays at own) in
    ground (arith, rest, stays at own, none_there (nr_of (step at)), x)

-- On the sheet 0 of a workspace whose other sheets have no views, the search for an inhabited
-- sheet goes on for ever, in both directions: `hikari_sheet_next` and `hikari_sheet_prev` never
-- come back to the sheet 0.
pub next_inhabited_hangs :
    (views : ℕ → List ℕ) (w f : ℕ)
    → ((nr : ℕ) → 1 ≤ nr → nr ≤ 9 → is_empty (views (sheet_at w nr)) ≡ true)
    → (next_inhabited f views (sheet_at w 0) ≡ none)
      × (prev_inhabited f views (sheet_at w 0) ≡ none)
unfolding next_inhabited prev_inhabited next prev
next_inhabited_hangs views w f none_there = (
  cycle_hangs next views w f (sheet_at w 0) none_there (λ x own. ground arith) (omega arith),
  cycle_hangs prev views w f (sheet_at w 0) none_there (λ x own. ground arith) (omega arith),
)
