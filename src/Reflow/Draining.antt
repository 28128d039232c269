-- ===== src/Reflow/Draining.antt =====
-- `drain` (reflow.c): what becomes of each sheet in the queue.
use hikari_sakura.Prelude.{
  ℕ, Bool, true, false, not, ◌&&◌, ◌||◌, ◌==◌, if◌then◌else◌, List, [], ◌∷◌, ◌++◌, ◌≡◌, refl, ap,
  sym, ◌∙◌, arith, Bool-cases, inl, inr, ◌⊎◌,
}
use mathlib.Core.List.{append_assoc, append-nil}
use hikari_sakura.Stacking.Links.{mem, remove}
use hikari_sakura.Layout.Scan.{select}
use hikari_sakura.Reflow.{
  Env, Reflow, Insert, prepend, append, restack, Retile, restack_prepend, restack_append,
  apply_split, leave, sheet_is_settling, dequeue, arm, settle, retile, reflow, drain_sheet,
  drain_each, drain,
}

-- The sheets that stay in the queue, and those that are laid out, where the queue is drained.
abbrev pub stays : Env → ℕ → Bool
stays env s = not env.lock_mode && env.visible s && sheet_is_settling env s

abbrev pub is_due : Env → ℕ → Bool
is_due env s = not env.lock_mode && env.visible s && not (sheet_is_settling env s)

-- What is done to them.
abbrev pub retiles : Env → List ℕ → List (ℕ × Retile)
retiles env [] = []
retiles env (s ∷ ss) = (s, retile env s) ∷ retiles env ss

-- Whether a sheet is laid out by that: it has a layout, or the policy has a split for it.
abbrev pub has_plan : Env → ℕ → Bool
has_plan env s = env.has_layout s || env.policy_split s

-- The sheets whose views something was done to; a sheet that was left alone is none of them.
abbrev pub laid_out : List (ℕ × Retile) → List ℕ
laid_out [] = []
laid_out ((s, restack_prepend) ∷ es) = s ∷ laid_out es
laid_out ((s, restack_append) ∷ es) = s ∷ laid_out es
laid_out ((s, apply_split) ∷ es) = s ∷ laid_out es
laid_out ((s, leave) ∷ es) = laid_out es

laid_out-append : (xs ys : List (ℕ × Retile)) → laid_out (xs ++ ys) ≡ laid_out xs ++ laid_out ys
laid_out-append [] ys = refl
laid_out-append ((s, restack_prepend) ∷ es) ys = ap (λ l. s ∷ l) (laid_out-append es ys)
laid_out-append ((s, restack_append) ∷ es) ys = ap (λ l. s ∷ l) (laid_out-append es ys)
laid_out-append ((s, apply_split) ∷ es) ys = ap (λ l. s ∷ l) (laid_out-append es ys)
laid_out-append ((s, leave) ∷ es) ys = laid_out-append es ys

laid_out-retile :
    (env : Env) (s : ℕ) (es : List (ℕ × Retile))
    → laid_out ((s, retile env s) ∷ es) ≡ (if has_plan env s then s ∷ laid_out es else laid_out es)
unfolding retile
laid_out-retile env s es = elim (Bool-cases (env.has_layout s)) [
  | inl has ↦ rw has (extended env.insert)
  | inr not_yet ↦ rw not_yet (chosen (env.policy_split s))
]
  where
    extended : (i : Insert) → laid_out ((s, restack i) ∷ es) ≡ s ∷ laid_out es
    extended prepend = refl
    extended append = refl

    chosen :
        (b : Bool)
        → laid_out ((s, if b then apply_split else leave) ∷ es)
          ≡ (if b then s ∷ laid_out es else laid_out es)
    chosen true = refl
    chosen false = refl

laid_out-retiles :
    (env : Env) (t : ℕ → Bool) (ss : List ℕ)
    → laid_out (retiles env (select t ss)) ≡ select (λ u. t u && has_plan env u) ss
unfolding select
laid_out-retiles env t [] = refl
laid_out-retiles env t (s ∷ ss) = elim (Bool-cases (t s)) [
  | inl yes' ↦ rw yes' (
      laid_out-retile env s (retiles env (select t ss))
      ∙ ap (λ l. if has_plan env s then s ∷ l else l) (laid_out-retiles env t ss))
  | inr no' ↦ rw no' (laid_out-retiles env t ss)
]

remove-select :
    (v : ℕ) (t : ℕ → Bool) (xs : List ℕ)
    → select t (remove v xs) ≡ select (λ u. not (u == v) && t u) xs
unfolding remove select
remove-select v t [] = refl
remove-select v t (x ∷ xs) = ground (arith, remove-select v t xs)

select_everything : (t : ℕ → Bool) (xs : List ℕ) → ((u : ℕ) → t u ≡ true) → select t xs ≡ xs
unfolding select
select_everything t [] h = refl
select_everything t (x ∷ xs) h = rw (h x, select_everything t xs h) refl

select-same : (t s : ℕ → Bool) (xs : List ℕ) → ((u : ℕ) → t u ≡ s u) → select t xs ≡ select s xs
unfolding select
select-same t s [] h = refl
select-same t s (x ∷ xs) h = rw (h x, select-same t s xs h) refl

reflow_pending : (env : Env) (s : ℕ) (r : Reflow) → (reflow env s r).pending ≡ r.pending
unfolding reflow settle arm
reflow_pending env s r = ground arith

reflow_retiled :
    (env : Env) (s : ℕ) (r : Reflow)
    → (reflow env s r).retiled ≡ r.retiled ++ (s, retile env s) ∷ []
unfolding reflow settle arm
reflow_retiled env s r = ground arith

drain_sheet_pending :
    (env : Env) (s : ℕ) (r : Reflow)
    → (drain_sheet env s r).pending ≡ (if stays env s then r.pending else remove s r.pending)
unfolding drain_sheet dequeue
drain_sheet_pending env s r = ground (arith, reflow_pending env s (dequeue s r))

drain_sheet_retiled :
    (env : Env) (s : ℕ) (r : Reflow)
    → (drain_sheet env s r).retiled
      ≡ (if is_due env s then r.retiled ++ (s, retile env s) ∷ [] else r.retiled)
unfolding drain_sheet dequeue
drain_sheet_retiled env s r = ground (arith, reflow_retiled env s (dequeue s r))

stays_at :
    (t : ℕ → Bool) (s u : ℕ) (b : Bool) → t s ≡ true → (not b || t u) ≡ (not (u == s || b) || t u)
stays_at t s u b h = ground arith

leaves_at :
    (t : ℕ → Bool) (s u : ℕ) (b : Bool)
    → t s ≡ false
    → (not (u == s) && (not b || t u)) ≡ (not (u == s || b) || t u)
leaves_at t s u b h = ground arith

drain_each_pending :
    (env : Env) (ss : List ℕ) (r : Reflow)
    → (drain_each env ss r).pending ≡ select (λ u. not (mem u ss) || stays env u) r.pending
unfolding drain_each mem
drain_each_pending env [] r = sym (select_everything _ r.pending (λ u. refl))
drain_each_pending env (s ∷ ss) r = elim (Bool-cases (stays env s)) [
  | inl stays' ↦
      drain_each_pending env ss (drain_sheet env s r)
      ∙ ap (λ l. select (λ u. not (mem u ss) || stays env u) l)
          (drain_sheet_pending env s r ∙ rw stays' refl)
      ∙ select-same _ _ r.pending (λ u. stays_at (stays env) s u (mem u ss) stays')
  | inr leaves ↦
      drain_each_pending env ss (drain_sheet env s r)
      ∙ ap (λ l. select (λ u. not (mem u ss) || stays env u) l)
          (drain_sheet_pending env s r ∙ rw leaves refl)
      ∙ remove-select s (λ u. not (mem u ss) || stays env u) r.pending
      ∙ select-same _ _ r.pending (λ u. leaves_at (stays env) s u (mem u ss) leaves)
]

drain_each_retiled :
    (env : Env) (ss : List ℕ) (r : Reflow)
    → (drain_each env ss r).retiled ≡ r.retiled ++ retiles env (select (is_due env) ss)
unfolding drain_each select
drain_each_retiled env [] r = sym (append-nil r.retiled)
drain_each_retiled env (s ∷ ss) r = elim (Bool-cases (is_due env s)) [
  | inl due ↦
      drain_each_retiled env ss (drain_sheet env s r)
      ∙ rw (due, drain_sheet_retiled env s r, due)
          (append_assoc r.retiled ((s, retile env s) ∷ []) _)
  | inr late ↦
      drain_each_retiled env ss (drain_sheet env s r)
      ∙ rw (late, drain_sheet_retiled env s r, late) refl
]

select_in_itself :
    (t : ℕ → Bool) (xs ys : List ℕ)
    → ((u : ℕ) → mem u ys ≡ true → mem u xs ≡ true)
    → select (λ u. not (mem u xs) || t u) ys ≡ select t ys
unfolding select mem
select_in_itself t xs [] h = refl
select_in_itself t xs (y ∷ ys) h =
    let here = h y (ground arith) in
    let later = select_in_itself t xs ys (λ u there. h u (ground arith)) in rw (here, later) refl

drain_still :
    (env : Env) (r : Reflow)
    → env.move_mode ≡ false
    → drain env r ≡ drain_each env r.pending (record r { idle_source = false })
unfolding drain
drain_still env r h = ground arith

drain_held :
    (env : Env) (r : Reflow) → env.move_mode ≡ true → drain env r ≡ record r { idle_source = false }
unfolding drain
drain_held env r h = ground arith

-- A queue that is drained outside of move mode keeps exactly the sheets that are visible and still
-- settling, and these only on an unlocked screen. Of the others those that are visible get what the
-- policy has for them, each as often as it was queued and in order, if the screen is unlocked: those
-- that have a layout, or for which the policy has a split, are laid out, and the rest are left alone.
-- In move mode the queue stays as it is, and nothing is laid out.
pub drain_lem :
    (env : Env) (r : Reflow)
    → ((env.move_mode ≡ true) × (drain env r ≡ record r { idle_source = false }))
      ⊎ ((env.move_mode ≡ false)
          × ((drain env r).pending ≡ select (stays env) r.pending)
          × ((drain env r).retiled ≡ r.retiled ++ retiles env (select (is_due env) r.pending))
          × (laid_out (drain env r).retiled
              ≡ laid_out r.retiled ++ select (λ s. is_due env s && has_plan env s) r.pending))
drain_lem env r = elim (Bool-cases env.move_mode) [
  | inl move ↦ inl (move, drain_held env r move)
  | inr still ↦
      let retiled : (drain env r).retiled
          ≡ r.retiled ++ retiles env (select (is_due env) r.pending) =
        ap (λ q. q.retiled) (drain_still env r still)
        ∙ drain_each_retiled env r.pending (record r { idle_source = false }) in
      inr (
        still,
        ap (λ q. q.pending) (drain_still env r still)
            ∙ drain_each_pending env r.pending (record r { idle_source = false })
            ∙ select_in_itself (stays env) r.pending r.pending (λ u there. there),
        retiled,
        ap laid_out retiled
            ∙ laid_out-append r.retiled (retiles env (select (is_due env) r.pending))
            ∙ ap (λ l. laid_out r.retiled ++ l) (laid_out-retiles env (is_due env) r.pending),
      )
]
