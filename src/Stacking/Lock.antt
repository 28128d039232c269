-- ===== src/Stacking/Lock.antt =====
-- lock_mode.c: what locking and unlocking the screen does to the flags of every view.
use hikari_sakura.Prelude.{
  ℕ, true, false, not, ◌==◌, ◌&&◌, List, [], ◌∷◌, none, ◌≡◌, refl, arith, if◌then◌else◌,
}
use hikari_sakura.Stacking.Links.{mem, Distinct}
use hikari_sakura.Stacking.State.{View, Server, update, focus}

-- The body of the loop in `override_visibility`.
unfoldable pub override_view : View → View
override_view r =
    if r.public
    then (if r.hidden then record r { forced = true; hidden = false } else r)
    else (if r.hidden then r else record r { forced = true; hidden = true })

-- The body of the loop in `reset_visibility`.
unfoldable pub reset_view : View → View
reset_view r = if r.forced then record r { forced = false; hidden = not r.hidden } else r

-- `wl_list_for_each_reverse` over one output's views, the last first.
unfoldable pub flag_each : (View → View) → List ℕ → (ℕ → View) → ℕ → View
flag_each f [] views = views
flag_each f (v ∷ vs) views = let rest = flag_each f vs views in update rest v (f (rest v))

-- `wl_list_for_each` over the outputs.
unfoldable pub flag_outputs : (View → View) → (ℕ → List ℕ) → List ℕ → (ℕ → View) → ℕ → View
flag_outputs f output_views [] views = views
flag_outputs f output_views (o ∷ os) views =
    flag_outputs f output_views os (flag_each f (output_views o) views)

unfoldable pub override_visibility : Server → Server
unfolding flag_outputs flag_each override_view
override_visibility s = record s {
  view = flag_outputs override_view s.output_views s.outputs s.view;
}

unfoldable pub reset_visibility : Server → Server
unfolding flag_outputs flag_each reset_view
reset_visibility s = record s { view = flag_outputs reset_view s.output_views s.outputs s.view }

-- `hikari_lock_mode_enter`: the current workspace loses its focus, and the mode changes before
-- the flags do.
unfoldable pub lock_mode_enter : Server → Server
unfolding override_visibility focus
lock_mode_enter s = override_visibility (record (focus s.workspace none s) { locked = true })

-- The mode's `cancel`, and the change to normal mode that follows it.
unfoldable pub lock_mode_cancel : Server → Server
unfolding reset_visibility
lock_mode_cancel s = record (reset_visibility s) { locked = false }

flag_each-at :
    (f : View → View) (vs : List ℕ) (views : ℕ → View) (u : ℕ)
    → Distinct vs
    → flag_each f vs views u ≡ (if mem u vs then f (views u) else views u)
unfolding flag_each mem
flag_each-at f [] views u d = refl
flag_each-at f (v ∷ vs) views u d =
    ground (arith, flag_each-at f vs views u d.1, flag_each-at f vs views v d.1)

module _ (f : View → View)
    (keeps : (r : View) → ((f r).mapped ≡ r.mapped) × ((f r).output ≡ r.output))
    (lists : ℕ → List ℕ) (once : (k : ℕ) → Distinct (lists k)) where
  -- Every mapped view of a listed output is visited exactly once.
  pub flag_outputs-at :
      (os : List ℕ) (views : ℕ → View) (u : ℕ)
      → Distinct os
      → ((k : ℕ) → mem u (lists k) ≡ ((views u).mapped && (views u).output == k))
      → flag_outputs f lists os views u
        ≡ (if (views u).mapped && mem (views u).output os then f (views u) else views u)
  unfolding flag_outputs mem
  flag_outputs-at [] views u d on = ground arith
  flag_outputs-at (o ∷ os) views u d on = ground (
    arith,
    flag_each-at f (lists o) views u (once o),
    on o,
    keeps (views u),
    flag_outputs-at os (flag_each f (lists o) views) u d.1
        (λ k. ground (arith, flag_each-at f (lists o) views u (once o), on k, keeps (views u))),
  )
