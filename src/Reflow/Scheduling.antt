-- ===== src/Reflow/Scheduling.antt =====
-- The queue of reflow.c over time: what is scheduled is laid out, and nothing is queued twice.
use hikari_sakura.Prelude.{
  ℕ, Bool, true, false, ◌&&◌, ◌||◌, List, [], ◌∷◌, ◌≡◌, refl, ap, sym, ◌∙◌, subst, arith, inl, inr,
  ◌⊎◌,
}
use hikari_sakura.Stacking.Links.{mem, mem-append, remove, remove-Distinct, is_empty, Distinct}
use hikari_sakura.Layout.Scan.{select}
use hikari_sakura.Reflow.{Env, Reflow, dequeue, arm, settle, schedule, cancel, drain, fini}
use hikari_sakura.Reflow.Draining.{stays, is_due, has_plan, laid_out, drain_lem}

mem-select : (u : ℕ) (t : ℕ → Bool) (xs : List ℕ) → mem u (select t xs) ≡ (mem u xs && t u)
unfolding mem select
mem-select u t [] = refl
mem-select u t (x ∷ xs) = ground (arith, mem-select u t xs)

-- Scheduling a sheet again while it is queued changes nothing.
pub schedule_idem :
    (env : Env) (s : ℕ) (r : Reflow) → schedule env s (schedule env s r) ≡ schedule env s r
unfolding schedule arm mem
schedule_idem env s r = ground arith

-- A queue that is not empty is armed by the next geometry operation that lands, unless a view is
-- being moved.
pub settle_arms :
    (env : Env) (r : Reflow)
    → env.event_loop ≡ true
    → env.move_mode ≡ false
    → is_empty r.pending ≡ false
    → (settle env r).idle_source ≡ true
unfolding settle arm
settle_arms env r h k l = ground arith

-- A sheet that is due when the queue is drained leaves the queue, and is laid out if it has a layout
-- or the policy has a split for it.
drained :
    (env : Env) (s : ℕ) (r : Reflow)
    → env.move_mode ≡ false
    → is_due env s ≡ true
    → has_plan env s ≡ true
    → mem s r.pending ≡ true
    → (mem s (laid_out (drain env r).retiled) ≡ true) × (mem s (drain env r).pending ≡ false)
drained env s r still due plan queued = elim (drain_lem env r) [
  | inl (move, e) ↦ absurd (ground arith)
  | inr (held, pending, retiled, done) ↦ (
    ap (mem s) done
        ∙ mem-append s (laid_out r.retiled) (select (λ u. is_due env u && has_plan env u) r.pending)
        ∙ due_last (mem s (laid_out r.retiled))
            (mem-select s (λ u. is_due env u && has_plan env u) r.pending),
    ap (mem s) pending ∙ mem-select s (stays env) r.pending ∙ gone (mem s r.pending),
  )
]
  where
    due_last :
        (b : Bool)
        → mem s (select (λ u. is_due env u && has_plan env u) r.pending)
          ≡ (mem s r.pending && (is_due env s && has_plan env s))
        → (b || mem s (select (λ u. is_due env u && has_plan env u) r.pending)) ≡ true
    due_last b e = ground (arith, e, plan, due, queued)

    gone : (b : Bool) → (b && stays env s) ≡ false
    gone b = ground arith

-- A sheet that is scheduled while it is not queued arms the idle source, and when that is dispatched
-- the sheet is laid out and leaves the queue. Tiling is automatic, there is an event loop, no view is
-- being moved, the screen is unlocked, and the sheet is visible, has no view under way, and has a
-- layout or a split that the policy has for it.
pub schedule-drain :
    (env : Env) (s : ℕ) (r : Reflow)
    → env.automatic ≡ true
    → env.event_loop ≡ true
    → env.move_mode ≡ false
    → is_due env s ≡ true
    → has_plan env s ≡ true
    → mem s r.pending ≡ false
    → let q = schedule env s r in
      (q.idle_source ≡ true)
      × (mem s (laid_out (drain env q).retiled) ≡ true)
      × (mem s (drain env q).pending ≡ false)
unfolding schedule arm mem
schedule-drain env s r auto loop still due plan new =
    let d = drained env s (schedule env s r) still due plan (ground arith) in
    (ground arith, d.0, d.1)

-- What happens to the queue. An idle source is dispatched only where it is armed.
pub data Step : Reflow → Reflow → Type 0 where
  scheduled : (env : Env) (s : ℕ) (r : Reflow) → Step r (schedule env s r)
  settled : (env : Env) (r : Reflow) → Step r (settle env r)
  cancelled : (s : ℕ) (r : Reflow) → Step r (cancel s r)
  dispatched : (env : Env) (r : Reflow) → r.idle_source ≡ true → Step r (drain env r)
  ended : (r : Reflow) → Step r (fini r)

pub data Run : Reflow → Reflow → Type 0 where
  here : (r : Reflow) → Run r r
  later : (r q s : Reflow) → Run r q → Step q s → Run r s

select-Distinct : (t : ℕ → Bool) (xs : List ℕ) → Distinct xs → Distinct (select t xs)
unfolding select
select-Distinct t [] d = d
select-Distinct t (x ∷ xs) d = ground (arith, select-Distinct t xs, mem-select x t xs)

schedule_pending :
    (env : Env) (s : ℕ) (r : Reflow)
    → ((schedule env s r).pending ≡ r.pending)
      ⊎ ((mem s r.pending ≡ false) × ((schedule env s r).pending ≡ s ∷ r.pending))
unfolding schedule arm
schedule_pending env s r = ground arith

settle_pending : (env : Env) (r : Reflow) → (settle env r).pending ≡ r.pending
unfolding settle arm
settle_pending env r = ground arith

cancel_pending :
    (s : ℕ) (r : Reflow)
    → ((cancel s r).pending ≡ r.pending) ⊎ ((cancel s r).pending ≡ remove s r.pending)
unfolding cancel dequeue
cancel_pending s r = ground arith

Step-Distinct : {r q : Reflow} → Step r q → Distinct r.pending → Distinct q.pending
unfolding fini
Step-Distinct (scheduled env s r) d = elim (schedule_pending env s r) [
  | inl e ↦ subst Distinct (sym e) d
  | inr (new, e) ↦ subst Distinct (sym e) (new, d)
]
Step-Distinct (settled env r) d = subst Distinct (sym (settle_pending env r)) d
Step-Distinct (cancelled s r) d = elim (cancel_pending s r) [
  | inl e ↦ subst Distinct (sym e) d
  | inr e ↦ subst Distinct (sym e) (remove-Distinct s r.pending d)
]
Step-Distinct (dispatched env r armed) d = elim (drain_lem env r) [
  | inl (move, e) ↦ subst Distinct (sym (ap (λ q. q.pending) e)) d
  | inr (still, e, f, g) ↦ subst Distinct (sym e) (select-Distinct (stays env) r.pending d)
]
Step-Distinct (ended r) d = tt

-- Whatever is scheduled, settled, cancelled and drained, in whatever order, no sheet stands twice in
-- the queue if none does in the beginning.
pub Run-Distinct : {r q : Reflow} → Run r q → Distinct r.pending → Distinct q.pending
Run-Distinct (here r) d = d
Run-Distinct (later r q s run step) d = Step-Distinct step (Run-Distinct run d)
