-- ===== src/Reflow.antt =====
-- reflow.c: the queue of sheets that are to be laid out again, and the idle source that drains it.
pub mod Draining
pub mod Scheduling
mod Tests
use hikari_sakura.Prelude.{
  ℕ, Bool, true, false, not, ◌&&◌, ◌||◌, if◌then◌else◌, List, [], ◌∷◌, ◌++◌,
}
use hikari_sakura.Stacking.Links.{mem, remove, is_empty}

-- The flags of a view that the queue reads.
pub record ViewFlags : Type 0 where
  pub dirty : Bool
  pub floating : Bool
  pub invisible : Bool

-- `hikari_layout_policy`'s `insert`.
pub data Insert : Type 0 where
  prepend append : Insert

-- What `reflow` does with a sheet: it extends its layout at one end, gives it the policy's split, or
-- leaves it alone.
pub data Retile : Type 0 where
  restack_prepend restack_append apply_split leave : Retile

-- What the queue asks of the server: the policy, whether there is an event loop, the mode, whether a
-- sheet is visible, its views, whether it has a layout, and whether the policy names a split for it;
-- and whether a view of it takes its tile at once, which ends in `hikari_reflow_settle`.
pub record Env : Type 0 where
  pub automatic : Bool
  pub insert : Insert
  pub event_loop : Bool
  pub move_mode : Bool
  pub lock_mode : Bool
  pub visible : ℕ → Bool
  pub views : ℕ → List ViewFlags
  pub has_layout : ℕ → Bool
  pub policy_split : ℕ → Bool
  pub commits : ℕ → Bool

-- `pending_sheets`, front first; whether `idle_source` is armed; and what has been done to sheets.
pub record Reflow : Type 0 where
  pub pending : List ℕ
  pub idle_source : Bool
  pub retiled : List (ℕ × Retile)

unfoldable pub holds_back : List ViewFlags → Bool
holds_back [] = false
holds_back (v ∷ vs) = (v.dirty && not v.floating && not v.invisible) || holds_back vs

unfoldable pub sheet_is_settling : Env → ℕ → Bool
unfolding holds_back
sheet_is_settling env sheet = holds_back (env.views sheet)

unfoldable pub dequeue : ℕ → Reflow → Reflow
dequeue sheet r = record r { pending = remove sheet r.pending }

unfoldable pub arm : Env → Reflow → Reflow
arm env r =
    if r.idle_source || not env.event_loop
    then r
    else if env.move_mode
    then r
    else record r { idle_source = true }

unfoldable pub settle : Env → Reflow → Reflow
unfolding arm
settle env r = if is_empty r.pending then r else arm env r

unfoldable pub schedule : Env → ℕ → Reflow → Reflow
unfolding arm
schedule env sheet r =
    if not env.automatic
    then r
    else if mem sheet r.pending
    then r
    else arm env (record r { pending = sheet ∷ r.pending })

unfoldable pub cancel : ℕ → Reflow → Reflow
unfolding dequeue
cancel sheet r = if mem sheet r.pending then dequeue sheet r else r

abbrev pub restack : Insert → Retile
restack prepend = restack_prepend
restack append = restack_append

unfoldable pub retile : Env → ℕ → Retile
retile env sheet =
    if env.has_layout sheet
    then restack env.insert
    else if env.policy_split sheet
    then apply_split
    else leave

unfoldable pub reflow : Env → ℕ → Reflow → Reflow
unfolding retile settle
reflow env sheet r =
    let done = record r { retiled = r.retiled ++ (sheet, retile env sheet) ∷ [] } in
    if env.commits sheet then settle env done else done

-- The body of the loop of `drain`.
unfoldable pub drain_sheet : Env → ℕ → Reflow → Reflow
unfolding dequeue sheet_is_settling reflow
drain_sheet env sheet r =
    if env.lock_mode || not (env.visible sheet)
    then dequeue sheet r
    else if sheet_is_settling env sheet
    then r
    else reflow env sheet (dequeue sheet r)

unfoldable pub drain_each : Env → List ℕ → Reflow → Reflow
unfolding drain_sheet
drain_each env [] r = r
drain_each env (sheet ∷ sheets) r = drain_each env sheets (drain_sheet env sheet r)

unfoldable pub drain : Env → Reflow → Reflow
unfolding drain_each
drain env r =
    let dispatched = record r { idle_source = false } in
    if env.move_mode then dispatched else drain_each env r.pending dispatched

unfoldable pub fini : Reflow → Reflow
fini r = record r { pending = []; idle_source = false }
