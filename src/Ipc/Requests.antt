-- ===== src/Ipc/Requests.antt =====
-- The requests of ipc.c: what is asked, what it does to the views, and what is answered.
use hikari_sakura.Prelude.{
  ℕ, zero, suc, ◌+◌, ◌-◌, Bool, not, ◌==◌, ltb, leb, if◌then◌else◌, List, [], ◌∷◌, ◌++◌, Option,
  none, some, ℤ, pos, negsuc, length,
}
use hikari_sakura.Stacking.State.{Server, nr_of}
use hikari_sakura.Stacking.Pointer.{Hit}
use hikari_sakura.Workspace.Sheets.{sheet_at}
use hikari_sakura.Workspace.Display.{display_sheet}
use hikari_sakura.Workspace.Pinning.{pin_to_sheet}
use hikari_sakura.Ipc.Strings.{codes, is_same, before, behind, strtol, decimal}

-- What the handlers read and write: the state of the views, whether `hikari_server.workspace` is
-- set, and whether the mode is normal mode.
pub record Session : Type 0 where
  pub server : Server
  pub has_workspace : Bool
  pub in_normal_mode : Bool

-- The session after a request, and the text that was sent.
abbrev pub Answer : Type 0
Answer = Session × List ℕ

-- `HIKARI_NR_OF_SHEETS`, and `sizeof(out)` of `handle_state`.
abbrev pub nr_of_sheets : ℕ
nr_of_sheets = 10

abbrev pub size_of_out : ℕ
size_of_out = 512

abbrev pub error : Session → List ℕ → Answer
error s text = (s, text)

unfoldable pub in_range : ℤ → Option ℕ
in_range (pos value) = if leb nr_of_sheets value then none else some value
in_range (negsuc value) = none

-- The value is refused if anything comes behind it.
unfoldable pub whole_number : Option (ℤ × List ℕ) → Option ℕ
unfolding in_range
whole_number none = none
whole_number (some (value, [])) = in_range value
whole_number (some (value, c ∷ rest)) = none

-- `parse_sheet_nr`, with none for -1.
unfoldable pub parse_sheet_nr : Option (List ℕ) → Option ℕ
unfolding strtol whole_number
parse_sheet_nr none = none
parse_sheet_nr (some []) = none
parse_sheet_nr (some (c ∷ cs)) = whole_number (strtol (c ∷ cs))

-- One `snprintf` at the end of `out`; none if it does not fit with its terminator.
unfoldable pub put : List ℕ → List ℕ → Option (List ℕ)
put text out = if ltb (length text) (size_of_out - length out) then some (out ++ text) else none

-- The loop over the sheets of a workspace, for those that are left, from one of them on.
unfoldable pub put_counts : (ℕ → ℕ) → ℕ → ℕ → Option (List ℕ) → Option (List ℕ)
unfolding put decimal
put_counts count left i none = none
put_counts count zero i (some out) = some out
put_counts count (suc left) i (some out) =
    put_counts count left (i + 1) (put (32 ∷ decimal (count i)) out)

-- The last line, which `memcpy` writes with its terminator.
unfoldable pub put_end : Option (List ℕ) → List ℕ
put_end none = codes "error response too long\n"
put_end (some out) =
    if leb size_of_out (length out + 6)
    then codes "error response too long\n"
    else out ++ codes "\nEND\n"

-- The number of the sheet and the name of the output.
abbrev pub state_head : ℕ → List ℕ → List ℕ
state_head nr name = codes "sheet " ++ decimal nr ++ codes "\noutput " ++ name ++ codes "\ncounts"

-- The text that `handle_state` makes.
unfoldable pub state_text : ℕ → List ℕ → (ℕ → ℕ) → List ℕ
unfolding put put_counts put_end
state_text nr name count = put_end (put_counts count nr_of_sheets 0 (put (state_head nr name) []))

-- `hikari_workspace_switch_sheet`.
unfoldable pub switch_sheet : (Server → Hit) → ℕ → ℕ → Server → Server
unfolding display_sheet
switch_sheet hit workspace sheet s = display_sheet hit workspace sheet s

-- The loop that skips the spaces in front of the argument.
unfoldable pub skip_blanks : List ℕ → List ℕ
skip_blanks [] = []
skip_blanks (c ∷ cs) = let rest = skip_blanks cs in if c == 32 then rest else c ∷ cs

unfoldable pub argument : Option (List ℕ) → Option (List ℕ)
unfolding skip_blanks
argument none = none
argument (some rest) = some (skip_blanks rest)

-- The refocus of the pointer, which views' clients have not answered a resize, and what the
-- outputs are called.
module _ (hit : Server → Hit) (is_dirty : ℕ → Bool) (output_name : ℕ → List ℕ) where
  unfoldable pub handle_state : Session → Answer
  unfolding state_text
  handle_state s =
      let w = s.server.workspace in
      if not s.has_workspace then error s (codes "error no active workspace\n") else (
        s,
        state_text (nr_of (s.server.sheet w)) (output_name w)
            (λ i. length (s.server.sheet_views (sheet_at w i))),
      )

  unfoldable pub sheet_to : Option ℕ → Session → Answer
  unfolding switch_sheet
  sheet_to none s = error s (codes "error sheet number must be 0-9\n")
  sheet_to (some nr) s =
      let w = s.server.workspace in
      (record s { server = switch_sheet hit w (sheet_at w nr) s.server }, codes "ok\n")

  unfoldable pub handle_sheet : Option (List ℕ) → Session → Answer
  unfolding sheet_to parse_sheet_nr
  handle_sheet arg s =
      if not s.has_workspace
      then error s (codes "error no active workspace\n")
      else sheet_to (parse_sheet_nr arg) s

  unfoldable pub pin_view : ℕ → Option ℕ → Session → Answer
  unfolding pin_to_sheet
  pin_view nr none s = error s (codes "error no focused view\n")
  pin_view nr (some view) s = if is_dirty view then error s (codes "error view busy\n") else (
    record s { server = pin_to_sheet hit view (sheet_at s.server.workspace nr) s.server },
    codes "ok\n",
  )

  unfoldable pub pin_to : Option ℕ → Session → Answer
  unfolding pin_view
  pin_to none s = error s (codes "error sheet number must be 0-9\n")
  pin_to (some nr) s = pin_view nr (s.server.focus_view s.server.workspace) s

  unfoldable pub handle_pin : Option (List ℕ) → Session → Answer
  unfolding pin_to parse_sheet_nr
  handle_pin arg s =
      if not s.has_workspace
      then error s (codes "error no active workspace\n")
      else pin_to (parse_sheet_nr arg) s

  -- The command and its argument, with the gate in front of the handlers.
  unfoldable pub run_command : List ℕ → Option (List ℕ) → Session → Answer
  unfolding handle_state handle_sheet handle_pin is_same
  run_command command arg s =
      if not s.in_normal_mode
      then error s (codes "error compositor busy\n")
      else if is_same command (codes "state")
      then handle_state s
      else if is_same command (codes "sheet")
      then handle_sheet arg s
      else if is_same command (codes "pin")
      then handle_pin arg s
      else error s (codes "error unknown command\n")

  -- `dispatch` of a line.
  unfoldable pub dispatch : List ℕ → Session → Answer
  unfolding run_command argument before behind
  dispatch line s = run_command (before 32 line) (argument (behind 32 line)) s
