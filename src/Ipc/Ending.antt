-- ===== src/Ipc/Ending.antt =====
-- How the conversation of one client of ipc.c goes on, and that it ends.
use hikari_sakura.Prelude.{
  ℕ, zero, suc, ◌+◌, ◌-◌, ◌≤◌, ◌<◌, Bool, true, false, ◌==◌, if_elim, List, [], ◌∷◌, ◌++◌, Option,
  some, length, length-append, take, All, ◌≡◌, ◌≢◌, refl, sym, arith, Option-cases, inl, inr, ap,
  ◌∙◌,
}
use hikari_sakura.Stacking.State.{Server}
use hikari_sakura.Stacking.Pointer.{Hit}
use hikari_sakura.Workspace.Sheets.{sheet_at}
use hikari_sakura.Ipc.Strings.{is_same, codes, before, behind, decimal, put_digits}
use hikari_sakura.Ipc.Requests.{
  Session, switch_sheet, Answer, pin_view, dispatch, run_command, handle_sheet, sheet_to, argument,
  skip_blanks, parse_sheet_nr, handle_pin, pin_to,
}
use hikari_sakura.Ipc.Socket.{
  max_request, Input, Verdict, waits, ends, take_line, line_of, strip_return, read_bytes, receive,
  hangup, nothing_yet, failed, bytes,
}
use hikari_sakura.Ipc.Parsing.{parse_sheet_nr-decimal}
use hikari_sakura.Ipc.Clients.{IsWaiting, Waits, receive-Waits}

abbrev pub is_over : Verdict → Bool
is_over (waits buf) = false
is_over (ends text) = true

-- A client that waits has more in its buffer than this.
abbrev Grows : ℕ → Verdict → Type 0
Grows n (waits buf) = n < length buf
Grows n (ends text) = Unit {0}

module _ (hit : Server → Hit) (is_dirty : ℕ → Bool) (output_name : ℕ → List ℕ) where
  -- The event loop calls `client_readable` for what comes, until the client is destroyed.
  unfoldable pub converse : List Input → Verdict × Session → Verdict × Session
  unfolding receive
  converse [] r = r
  converse (x ∷ xs) (ends text, s) = (ends text, s)
  converse (x ∷ xs) (waits buf, s) = converse xs (receive hit is_dirty output_name x buf s)

  take_line-Grows :
      (n : ℕ) (buf : List ℕ) (s : Session)
      → n < length buf
      → Grows n (take_line hit is_dirty output_name buf s).0
  unfolding take_line
  take_line-Grows n buf s h = elim (Option-cases (behind 10 buf)) [
    | inr (rest, e) ↦ rw (e, take_line) tt
    | inl e ↦
        rw (e, take_line)
          (if_elim (λ (r : Verdict × Session). Grows n r.0) (length buf == max_request) (λ _. tt)
            (λ _. h))
  ]

  receive-Grows :
      (x : Input) (buf : List ℕ) (s : Session)
      → x ≢ nothing_yet
      → Grows (length buf) (receive hit is_dirty output_name x buf s).0
  unfolding receive read_bytes
  receive-Grows hangup buf s p = tt
  receive-Grows nothing_yet buf s p = absurd (p refl)
  receive-Grows failed buf s p = tt
  receive-Grows (bytes there) buf s p = grows (take (max_request - length buf) there)
    where
      grows : (got : List ℕ) → Grows (length buf) (read_bytes hit is_dirty output_name got buf s).0
      grows [] = tt
      grows (b ∷ bs) =
          take_line-Grows (length buf) (buf ++ b ∷ bs) s (omega (arith, length-append buf (b ∷ bs)))

  ended :
      (xs : List Input) (text : Option (List ℕ)) (s : Session)
      → converse xs (ends text, s) ≡ (ends text, s)
  unfolding converse
  ended [] text s = refl
  ended (x ∷ xs) text s = refl

  goes_on :
      (xs : List Input) (n : ℕ) (r : Verdict × Session)
      → Waits r.0
      → Grows n r.0
      → ((buf : List ℕ) (s : Session)
          → IsWaiting buf
          → n < length buf
          → is_over (converse xs (waits buf, s)).0 ≡ true)
      → is_over (converse xs r).0 ≡ true
  goes_on xs n (waits buf, s) w g k = k buf s w g
  goes_on xs n (ends text, s) w g k = rw (ended xs text s) refl

  -- A client is destroyed after 512 calls at the latest in which something comes: a hangup, an
  -- error, the end of the stream, or any bytes. It is waiting, with no full buffer and no complete
  -- line in it, before that.
  pub converse_ends :
      (xs : List Input) (buf : List ℕ) (s : Session)
      → IsWaiting buf
      → All (λ x. x ≢ nothing_yet) xs
      → max_request ≤ length xs + length buf
      → is_over (converse xs (waits buf, s)).0 ≡ true
  unfolding converse
  converse_ends [] buf s w p h = absurd (omega (arith, w.0, h))
  converse_ends (x ∷ xs) buf s w p h =
      goes_on xs (length buf) (receive hit is_dirty output_name x buf s)
        (receive-Waits hit output_name is_dirty x buf s w) (receive-Grows x buf s p.0)
        (λ new t w' g. converse_ends xs new t w' p.1 (omega (arith, h, g)))

-- The parts of a line that has one character behind a space.
line_of_request :
    (c : ℕ) (rest : List ℕ)
    → 48 ≤ c
    → (line_of (codes "sheet " ++ c ∷ 10 ∷ rest) ≡ codes "sheet " ++ c ∷ [])
      × (line_of (codes "pin " ++ c ∷ 10 ∷ rest) ≡ codes "pin " ++ c ∷ [])
unfolding line_of before strip_return
line_of_request c rest h = (ground arith, ground arith)

parts_of_request :
    (c : ℕ)
    → 48 ≤ c
    → (before 32 (codes "sheet " ++ c ∷ []) ≡ codes "sheet")
      × (argument (behind 32 (codes "sheet " ++ c ∷ [])) ≡ some (c ∷ []))
      × (before 32 (codes "pin " ++ c ∷ []) ≡ codes "pin")
      × (argument (behind 32 (codes "pin " ++ c ∷ [])) ≡ some (c ∷ []))
unfolding before behind argument skip_blanks
parts_of_request c h = (refl, ground arith, refl, ground arith)

-- The character that a sheet's number is printed as.
decimal_lem : (nr : ℕ) → nr < 10 → decimal nr ≡ (48 + nr) ∷ []
unfolding decimal put_digits
decimal_lem zero h = ground arith
decimal_lem (suc nr) h = ground arith

module _ (hit : Server → Hit) (is_dirty : ℕ → Bool) (output_name : ℕ → List ℕ) (s : Session)
    (active : s.has_workspace ≡ true) (normal : s.in_normal_mode ≡ true) where
  run_request :
      (c nr : ℕ)
      → parse_sheet_nr (some (c ∷ [])) ≡ some nr
      → (run_command hit is_dirty output_name (codes "sheet") (some (c ∷ [])) s
          ≡ sheet_to hit is_dirty output_name (some nr) s)
        × (run_command hit is_dirty output_name (codes "pin") (some (c ∷ [])) s
            ≡ pin_to hit is_dirty output_name (some nr) s)
  unfolding run_command handle_sheet handle_pin is_same
  run_request c nr p = (rw (normal, active, p) refl, rw (normal, active, p) refl)

  abbrev answered : Answer → Verdict × Session
  answered a = (ends (some a.1), a.0)

  take_line-answered :
      (buf rest : List ℕ)
      → behind 10 buf ≡ some rest
      → take_line hit is_dirty output_name buf s
        ≡ answered (dispatch hit is_dirty output_name (line_of buf) s)
  unfolding take_line dispatch
  take_line-answered buf rest e = rw (e, take_line) refl

  receive_digit :
      (c : ℕ) (rest : List ℕ)
      → 48 ≤ c
      → (receive hit is_dirty output_name (bytes (codes "sheet " ++ c ∷ 10 ∷ rest)) [] s
          ≡ answered (run_command hit is_dirty output_name (codes "sheet") (some (c ∷ [])) s))
        × (receive hit is_dirty output_name (bytes (codes "pin " ++ c ∷ 10 ∷ rest)) [] s
            ≡ answered (run_command hit is_dirty output_name (codes "pin") (some (c ∷ [])) s))
  unfolding receive read_bytes dispatch before behind
  receive_digit c rest h =
      let parts = parts_of_request c h in
      (
        take_line-answered (codes "sheet " ++ c ∷ 10 ∷ take 504 rest) (take 504 rest) (ground arith)
            ∙ ap (λ l. answered (dispatch hit is_dirty output_name l s))
                (line_of_request c (take 504 rest) h).0
            ∙ ap (λ a. answered (run_command hit is_dirty output_name (codes "sheet") a s)) parts.1,
        take_line-answered (codes "pin " ++ c ∷ 10 ∷ take 506 rest) (take 506 rest) (ground arith)
            ∙ ap (λ l. answered (dispatch hit is_dirty output_name l s))
                (line_of_request c (take 506 rest) h).1
            ∙ ap (λ a. answered (run_command hit is_dirty output_name (codes "pin") a s)) parts.3,
      )

  -- A line that names a sheet is answered: in normal mode, where there is a workspace, `sheet` switches
  -- the workspace to the sheet of that number and the client is told so, and `pin` asks for the view
  -- that has the focus there to be moved to it. What comes behind the line is not looked at.
  pub receive_request :
      (nr : ℕ) (rest : List ℕ)
      → nr < 10
      → let w = s.server.workspace in
        let request : List ℕ → Input = λ command. bytes (command ++ (decimal nr ++ 10 ∷ rest)) in
        (receive hit is_dirty output_name (request (codes "sheet ")) [] s
          ≡ answered
              (record s { server = switch_sheet hit w (sheet_at w nr) s.server }, codes "ok\n"))
        × (receive hit is_dirty output_name (request (codes "pin ")) [] s
            ≡ answered (pin_view hit is_dirty output_name nr (s.server.focus_view w) s))
  unfolding sheet_to pin_to
  receive_request nr rest h = rw (decimal_lem nr h) (
      let both = receive_digit (48 + nr) rest (omega arith) in
      let runs = run_request (48 + nr) nr (
        ap (λ t. parse_sheet_nr (some t)) (sym (decimal_lem nr h))
        ∙ parse_sheet_nr-decimal [] false 0 nr tt
        ∙ ground (arith, h)) in
      (both.0 ∙ ap answered runs.0, both.1 ∙ ap answered runs.1))
