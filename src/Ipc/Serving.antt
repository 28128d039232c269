-- ===== src/Ipc/Serving.antt =====
-- What the requests of ipc.c do to the views of the compositor.
use hikari_sakura.Prelude.{
  ℕ, ◌<◌, Bool, true, false, not, if_elim, List, Option, none, some, length, ◌≡◌, refl, sym, ◌∙◌,
  arith,
}
use hikari_sakura.Stacking.State.{
  Server, nr_of, workspace_of, hide, raise, raise_view, move_to, view_link_visible_at,
  view_unlink_visible, unlink_visible_lists, view_unlink_group_visible, clear_focus,
}
use hikari_sakura.Stacking.Pointer.{Hit, Sees}
use hikari_sakura.Stacking.Focus.{cursor_focus_keeps}
use hikari_sakura.Stacking.Invariant.{Inv}
use hikari_sakura.Workspace.Sheets.{sheet_at}
use hikari_sakura.Workspace.Displayed.{display_sheet-Inv, display_sheet_unlocked}
use hikari_sakura.Workspace.Pinning.{pin_to_sheet, pin_to_sheet-Inv, link_or_hide, resheet}
use hikari_sakura.Ipc.Strings.{codes, is_same, before, behind}
use hikari_sakura.Ipc.Requests.{
  size_of_out, Session, Answer, parse_sheet_nr, handle_state, sheet_to, handle_sheet, pin_view,
  pin_to, handle_pin, run_command, argument, dispatch, switch_sheet,
}
use hikari_sakura.Ipc.Parsing.{parse_sheet_nr_below, length-state_text}

-- The linkage of the views is in order, and normal mode is not lock mode.
pub record IsValid (s : Session) : Type 0 where
  pub linkage : Inv s.server
  pub normal : s.in_normal_mode ≡ true → s.server.locked ≡ false

own_sheet : (w nr : ℕ) → nr < 10 → workspace_of (sheet_at w nr) ≡ w
own_sheet w nr h = omega arith

pin_to_sheet_unlocked :
    (hit : Server → Hit) (v sheet : ℕ) (s : Server)
    → s.locked ≡ false
    → (pin_to_sheet hit v sheet s).locked ≡ false
unfolding pin_to_sheet link_or_hide resheet hide raise raise_view move_to view_link_visible_at
    view_unlink_visible unlink_visible_lists view_unlink_group_visible clear_focus
pin_to_sheet_unlocked hit v sheet s h = ground (arith, h, cursor_focus_keeps hit (hide v s))

module _ (hit : Server → Hit) (sees : Sees hit) where
  module _ (is_dirty : ℕ → Bool) (output_name : ℕ → List ℕ) (s : Session) (v : IsValid s)
      (normal : s.in_normal_mode ≡ true) where
    sheet_to-IsValid :
        (o : Option ℕ)
        → ((nr : ℕ) → o ≡ some nr → nr < 10)
        → IsValid (sheet_to hit is_dirty output_name o s).0
    unfolding sheet_to switch_sheet
    sheet_to-IsValid none below = v
    sheet_to-IsValid (some nr) below =
        let own = own_sheet s.server.workspace nr (below nr refl) in
        record {
          linkage = display_sheet-Inv hit _ _ s.server sees v.linkage (v.normal normal) own;
          normal = λ _.
              display_sheet_unlocked hit s.server.workspace _ s.server v.linkage (v.normal normal)
                own;
        }

    pin_view-IsValid :
        (nr : ℕ) (o : Option ℕ)
        → nr < 10
        → s.server.focus_view s.server.workspace ≡ o
        → IsValid (pin_view hit is_dirty output_name nr o s).0
    unfolding pin_view
    pin_view-IsValid nr none below e = v
    pin_view-IsValid nr (some u) below e =
        let w = s.server.workspace in
        let unlocked = v.normal normal in
        let free = v.linkage.unforced unlocked u in
        let seen = v.linkage.links.focused w u (ground (arith, e)) in
        if_elim (λ (a : Answer). IsValid a.0) (is_dirty u) (λ _. v)
          (λ _. record {
            linkage =
                pin_to_sheet-Inv hit u (sheet_at w nr) s.server v.linkage
                  (ground (arith, seen, free)) free (own_sheet w nr below ∙ sym seen.1) sees;
            normal = λ _. pin_to_sheet_unlocked hit u _ s.server unlocked;
          })

    pin_to-IsValid :
        (o : Option ℕ)
        → ((nr : ℕ) → o ≡ some nr → nr < 10)
        → IsValid (pin_to hit is_dirty output_name o s).0
    unfolding pin_to
    pin_to-IsValid none below = v
    pin_to-IsValid (some nr) below =
        pin_view-IsValid nr (s.server.focus_view s.server.workspace) (below nr refl) refl

  -- Whatever line a client sends, its request leaves the linkage in order.
  pub dispatch-IsValid :
      (is_dirty : ℕ → Bool) (output_name : ℕ → List ℕ) (line : List ℕ) (s : Session)
      → IsValid s
      → IsValid (dispatch hit is_dirty output_name line s).0
  unfolding dispatch run_command handle_state handle_sheet handle_pin argument
  dispatch-IsValid is_dirty output_name line s v =
      let arg = argument (behind 32 line) in
      let below = parse_sheet_nr_below arg in
      if_elim Keeps (not s.in_normal_mode) (λ _. v)
        (λ gate.
          let normal : s.in_normal_mode ≡ true = ground (arith, gate) in
          if_elim Keeps (is_same (before 32 line) (codes "state"))
            (λ _. if_elim Keeps (not s.has_workspace) (λ _. v) (λ _. v))
            (λ _.
              if_elim Keeps (is_same (before 32 line) (codes "sheet"))
                (λ _.
                  if_elim Keeps (not s.has_workspace) (λ _. v)
                    (λ _.
                      sheet_to-IsValid is_dirty output_name s v normal (parse_sheet_nr arg) below))
                (λ _.
                  if_elim Keeps (is_same (before 32 line) (codes "pin"))
                    (λ _.
                      if_elim Keeps (not s.has_workspace) (λ _. v)
                        (λ _.
                          pin_to-IsValid is_dirty output_name s v normal (parse_sheet_nr arg)
                            below))
                    (λ _. v))))
    where
      Keeps : Answer → Type 0
      Keeps a = IsValid a.0

-- Outside of normal mode a request changes nothing and is answered that the compositor is busy.
pub dispatch_gated :
    (hit : Server → Hit) (is_dirty : ℕ → Bool) (output_name : ℕ → List ℕ) (line : List ℕ)
    (s : Session)
    → s.in_normal_mode ≡ false
    → dispatch hit is_dirty output_name line s ≡ (s, codes "error compositor busy\n")
unfolding dispatch run_command
dispatch_gated hit is_dirty output_name line s h = ground (arith, h)

-- Every answer fits the buffer of the state's text.
pub length-dispatch :
    (hit : Server → Hit) (is_dirty : ℕ → Bool) (output_name : ℕ → List ℕ) (line : List ℕ)
    (s : Session)
    → length (dispatch hit is_dirty output_name line s).1 < size_of_out
unfolding dispatch run_command handle_state handle_sheet handle_pin
length-dispatch hit is_dirty output_name line s =
    if_elim Fits (not s.in_normal_mode) (λ _. omega arith)
      (λ _.
        if_elim Fits (is_same (before 32 line) (codes "state"))
          (λ _.
            if_elim Fits (not s.has_workspace) (λ _. omega arith)
              (λ _.
                length-state_text (nr_of (s.server.sheet s.server.workspace))
                  (output_name s.server.workspace)
                  (λ i. length (s.server.sheet_views (sheet_at s.server.workspace i)))))
          (λ _.
            if_elim Fits (is_same (before 32 line) (codes "sheet"))
              (λ _.
                if_elim Fits (not s.has_workspace) (λ _. omega arith)
                  (λ _. sheet_fits (parse_sheet_nr arg)))
              (λ _.
                if_elim Fits (is_same (before 32 line) (codes "pin"))
                  (λ _.
                    if_elim Fits (not s.has_workspace) (λ _. omega arith)
                      (λ _. pin_fits (parse_sheet_nr arg)))
                  (λ _. omega arith))))
  where
    arg : Option (List ℕ)
    arg = argument (behind 32 line)

    Fits : Answer → Type 0
    Fits a = length a.1 < size_of_out

    sheet_fits : (o : Option ℕ) → Fits (sheet_to hit is_dirty output_name o s)
    sheet_fits none = omega arith
    sheet_fits (some nr) = omega arith

    view_fits : (nr : ℕ) (o : Option ℕ) → Fits (pin_view hit is_dirty output_name nr o s)
    view_fits nr none = omega arith
    view_fits nr (some v) = if_elim Fits (is_dirty v) (λ _. omega arith) (λ _. omega arith)

    pin_fits : (o : Option ℕ) → Fits (pin_to hit is_dirty output_name o s)
    pin_fits none = omega arith
    pin_fits (some nr) = view_fits nr (s.server.focus_view s.server.workspace)
