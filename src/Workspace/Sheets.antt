-- ===== src/Workspace/Sheets.antt =====
-- The order of a workspace's ten sheets (sheet.c).
use hikari_sakura.Prelude.{
  ℕ, zero, suc, ◌+◌, ◌-◌, ◌*◌, ◌≤◌, Bool, not, ◌==◌, ◌||◌, ◌&&◌, if◌then◌else◌, ◌≡◌, arith, List,
  Option, none, some,
}
use hikari_sakura.Stacking.Links.{is_empty}
use hikari_sakura.Stacking.State.{Server, workspace_of, nr_of}

-- `&workspace->sheets[nr]`.
abbrev pub sheet_at : ℕ → ℕ → ℕ
sheet_at workspace nr = 10 * workspace + nr

-- `hikari_sheet_next`.
unfoldable pub next : ℕ → ℕ
next sheet =
    if nr_of sheet == 9
    then sheet_at (workspace_of sheet) 1
    else sheet_at (workspace_of sheet) (nr_of sheet + 1)

-- `hikari_sheet_prev`.
unfoldable pub prev : ℕ → ℕ
prev sheet =
    if nr_of sheet == 0 || nr_of sheet == 1
    then sheet_at (workspace_of sheet) 9
    else sheet_at (workspace_of sheet) (nr_of sheet - 1)

-- The loop of `CYCLE_INHABITED`, which starts at one sheet and stands at another; none when the
-- fuel runs out.
unfoldable pub cycle_inhabited : (ℕ → ℕ) → (ℕ → List ℕ) → ℕ → ℕ → ℕ → Option ℕ
cycle_inhabited step views zero sheet at = none
cycle_inhabited step views (suc f) sheet at =
    let rest = cycle_inhabited step views f sheet (step at) in
    if is_empty (views (step at)) && not (step at == sheet) then rest else some (step at)

unfoldable pub next_inhabited : ℕ → (ℕ → List ℕ) → ℕ → Option ℕ
unfolding next cycle_inhabited
next_inhabited fuel views sheet = cycle_inhabited next views fuel sheet sheet

unfoldable pub prev_inhabited : ℕ → (ℕ → List ℕ) → ℕ → Option ℕ
unfolding prev cycle_inhabited
prev_inhabited fuel views sheet = cycle_inhabited prev views fuel sheet sheet

-- `hikari_sheet_is_visible`.
unfoldable pub is_visible : ℕ → Server → Bool
is_visible sheet s =
    sheet == s.sheet (workspace_of sheet) || sheet == sheet_at (workspace_of sheet) 0

-- From a sheet other than 0, `hikari_sheet_next` and `hikari_sheet_prev` undo one another, and stay
-- among the sheets 1 to 9 of the workspace.
pub prev-next :
    (sheet : ℕ)
    → 1 ≤ nr_of sheet
    → (prev (next sheet) ≡ sheet)
      × (next (prev sheet) ≡ sheet)
      × (workspace_of (next sheet) ≡ workspace_of sheet)
      × (1 ≤ nr_of (next sheet))
      × (workspace_of (prev sheet) ≡ workspace_of sheet)
      × (1 ≤ nr_of (prev sheet))
unfolding next prev
prev-next sheet h =
    (ground arith, ground arith, ground arith, ground arith, ground arith, ground arith)
