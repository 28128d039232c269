-- ===== src/Stacking/Dangling.antt =====
-- Two ways in which `hikari_view_unmap` (view.c) leaves a workspace the focus of a view that is gone.
use hikari_sakura.Prelude.{ℕ, Bool, true, false, ◌==◌, ◌≡◌, refl, ap, ◌∙◌, arith, if_elim}
use hikari_sakura.Stacking.State.{
  Server, workspace_of, has, focus, view_unlink_visible, unlink_visible_lists,
  view_unlink_group_visible, detach_from_group,
}
use hikari_sakura.Stacking.Pointer.{Hit, background, cursor_focus, focus_hit}
use hikari_sakura.Stacking.Mapping.{clear_focus_in, hide_in, leave_visible, unmap_view}
use hikari_sakura.Stacking.Invariant.{Inv}
use hikari_sakura.Stacking.Lock.{override_view, lock_mode_enter, override_visibility}
use hikari_sakura.Stacking.Locking.{HasOutputs, locked_view}

-- A workspace names an unmapped view as its focus, against the invariant.
abbrev pub Dangles : ℕ → ℕ → Server → Type 0
Dangles w v t = (has (t.focus_view w) v ≡ true) × ((t.view v).mapped ≡ false) × (Inv t → ⊥)

dangling :
    (w v : ℕ) (t : Server)
    → has (t.focus_view w) v ≡ true
    → (t.view v).mapped ≡ false
    → Dangles w v t
dangling w v t focused gone =
    (focused, gone, λ i. ground (arith, i.links.focused w v, i.only_mapped v, focused, gone))

-- Unmapping changes the focus by nothing but the way out of the visible state.
unmap_focus :
    (hit : Server → Hit) (normal_mode : Bool) (v w : ℕ) (s : Server)
    → (has ((unmap_view hit normal_mode v s).focus_view w) v
        ≡ has ((leave_visible hit normal_mode v s).focus_view w) v)
      × (((unmap_view hit normal_mode v s).view v).mapped ≡ false)
unfolding unmap_view detach_from_group
unmap_focus hit normal_mode v w s = (refl, ground arith)

forced_focus :
    (hit : Server → Hit) (normal_mode : Bool) (v w : ℕ) (s : Server)
    → (s.view v).forced ≡ true
    → has ((leave_visible hit normal_mode v s).focus_view w) v ≡ has (s.focus_view w) v
unfolding leave_visible view_unlink_visible unlink_visible_lists view_unlink_group_visible
forced_focus hit normal_mode v w s forced =
    if_elim (λ (t : Server). has (t.focus_view w) v ≡ has (s.focus_view w) v) (s.view v).forced
      (λ _. refl) (λ no'. absurd (ground (arith, forced, no')))

-- A view that is not public, and has the focus of a workspace that is not the current one, keeps it
-- when it is unmapped on a locked screen: locking takes the focus of the current workspace only. The
-- workspace then names a view that is gone. The invariant holds before the screen is locked, and the
-- server lists the outputs of its mapped views.
pub unmap_view-lock_mode_enter :
    (hit : Server → Hit) (v w : ℕ) (s : Server)
    → Inv s
    → HasOutputs s
    → s.locked ≡ false
    → has (s.focus_view w) v ≡ true
    → (w == s.workspace) ≡ false
    → (s.view v).public ≡ false
    → Dangles w v (unmap_view hit false v (lock_mode_enter s))
unfolding lock_mode_enter override_visibility override_view focus
unmap_view-lock_mode_enter hit v w s i o unlocked focused other private =
    let r = unmap_focus hit false v w (lock_mode_enter s) in
    let f = forced_focus hit false v w (lock_mode_enter s) (
      ground (
        arith,
        locked_view s v i o,
        i.links.focused w v,
        i.only_mapped v,
        i.unforced unlocked v,
      )) in
    dangling w v _ (r.0 ∙ f ∙ ground (arith, focused, other)) r.1

-- The mode is left before the focus is cleared, and so another workspace loses it.
hide_in_elsewhere :
    (hit : Server → Hit) (v w : ℕ) (s : Server)
    → workspace_of (s.view v).sheet ≡ s.workspace
    → has (s.focus_view s.workspace) v ≡ true
    → (s.workspace == w) ≡ false
    → hit s ≡ background w
    → (has ((hide_in hit false v s).focus_view s.workspace) v ≡ true)
      × ((hide_in hit false v s).workspace ≡ w)
unfolding hide_in clear_focus_in cursor_focus focus_hit focus view_unlink_visible
    unlink_visible_lists view_unlink_group_visible
hide_in_elsewhere hit v w s own focused other under = rw under (ground (arith, own, focused, other))

refocus_same :
    (hit : Server → Hit) (w : ℕ) (s : Server)
    → s.workspace ≡ w
    → hit s ≡ background w
    → cursor_focus hit s ≡ s
unfolding cursor_focus focus_hit
refocus_same hit w s same under = rw under (
    if_elim (λ t. t ≡ s) (s.workspace == w) (λ _. refl) (λ no'. absurd (ground (arith, same, no'))))

-- A view that has the focus, and is unmapped outside of normal mode while the pointer is on the empty
-- background of another workspace, stays the focus of its own workspace: leaving the mode makes the other
-- workspace the current one, and that one's focus is cleared instead. The screen is unlocked, the view
-- is visible, the pointer stays where it is, and the invariant holds before.
pub unmap_view_elsewhere :
    (hit : Server → Hit) (v w : ℕ) (s : Server)
    → Inv s
    → s.locked ≡ false
    → has (s.focus_view s.workspace) v ≡ true
    → (s.workspace == w) ≡ false
    → hit s ≡ background w
    → hit (hide_in hit false v s) ≡ background w
    → Dangles s.workspace v (unmap_view hit false v s)
unfolding leave_visible
unmap_view_elsewhere hit v w s i unlocked focused other under after =
    let h =
      hide_in_elsewhere hit v w s (ground (arith, i.links.focused s.workspace v)) focused other
        under in
    let same = refocus_same hit w (hide_in hit false v s) h.1 after in
    let r = unmap_focus hit false v s.workspace s in
    dangling s.workspace v _ (r.0 ∙ out h.0 same) r.1
  where
    out :
        has ((hide_in hit false v s).focus_view s.workspace) v ≡ true
        → cursor_focus hit (hide_in hit false v s) ≡ hide_in hit false v s
        → has ((leave_visible hit false v s).focus_view s.workspace) v ≡ true
    out kept same =
        if_elim (λ (t : Server). has (t.focus_view s.workspace) v ≡ true) (s.view v).forced
          (λ yes'. absurd (ground (arith, yes', i.unforced unlocked v)))
          (λ _.
            if_elim (λ (t : Server). has (t.focus_view s.workspace) v ≡ true) (s.view v).hidden
              (λ _. focused)
              (λ _. ap (λ (t : Server). has (t.focus_view s.workspace) v) same ∙ kept))
