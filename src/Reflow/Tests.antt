-- ===== src/Reflow/Tests.antt =====
-- A queue of sheets, and the theorems of reflow.c at it.
use hikari_sakura.Prelude.{true, false, ◌==◌, ◌&&◌, if◌then◌else◌, [], ◌∷◌, ◌++◌, ◌≡◌, refl, ◌⊎◌}
use hikari_sakura.Stacking.Links.{mem}
use hikari_sakura.Layout.Scan.{select}
use hikari_sakura.Reflow.{
  ViewFlags, append, Env, Reflow, sheet_is_settling, holds_back, schedule, settle, cancel, drain,
}
use hikari_sakura.Reflow.Draining.{stays, is_due, retiles, has_plan, laid_out, drain_lem}
use hikari_sakura.Reflow.Scheduling.{
  Run, here, later, scheduled, settled, cancelled, schedule-drain,
}

abbrev busy_view : ViewFlags
busy_view = record { dirty = true; floating = false; invisible = false }

-- The sheet 2 has a view under way, and the sheet 3 is not visible.
abbrev env : Env
env = record {
  automatic = true;
  insert = append;
  event_loop = true;
  move_mode = false;
  lock_mode = false;
  visible = λ s. if s == 3 then false else true;
  views = λ s. if s == 2 then busy_view ∷ [] else [];
  has_layout = λ s. s == 1;
  policy_split = λ s. true;
  commits = λ s. false;
}

abbrev queued : Reflow
queued = record { pending = 3 ∷ 2 ∷ 1 ∷ []; idle_source = true; retiled = [] }

abbrev nothing_queued : Reflow
nothing_queued = record { pending = []; idle_source = false; retiled = [] }

drain_lem_example :
    ((env.move_mode ≡ true) × (drain env queued ≡ record queued { idle_source = false }))
    ⊎ ((env.move_mode ≡ false)
        × ((drain env queued).pending ≡ select (stays env) queued.pending)
        × ((drain env queued).retiled
            ≡ queued.retiled ++ retiles env (select (is_due env) queued.pending))
        × (laid_out (drain env queued).retiled
            ≡ laid_out queued.retiled
              ++ select (λ s. is_due env s && has_plan env s) queued.pending))
drain_lem_example = drain_lem env queued

schedule-drain_example :
    let q = schedule env 1 nothing_queued in
    (q.idle_source ≡ true)
    × (mem 1 (laid_out (drain env q).retiled) ≡ true)
    × (mem 1 (drain env q).pending ≡ false)
unfolding mem sheet_is_settling holds_back
schedule-drain_example = schedule-drain env 1 nothing_queued refl refl refl refl refl refl

abbrev first : Reflow
first = schedule env 2 nothing_queued

abbrev second : Reflow
second = schedule env 1 first

abbrev third : Reflow
third = settle env (cancel 2 second)

some-Run : Run nothing_queued third
some-Run =
    later nothing_queued (cancel 2 second) third
      (later nothing_queued second (cancel 2 second)
        (later nothing_queued first second
          (later nothing_queued nothing_queued first (here nothing_queued)
            (scheduled env 2 nothing_queued))
          (scheduled env 1 first))
        (cancelled 2 second))
      (settled env (cancel 2 second))
