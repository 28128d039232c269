-- ===== src/Workspace/Clearing.antt =====
-- `hikari_workspace_clear` (workspace.c): every view of a workspace is hidden.
use hikari_sakura.Prelude.{
  ℕ, true, false, ◌==◌, ◌&&◌, if◌then◌else◌, List, [], ◌∷◌, ◌≡◌, refl, ap, ◌∙◌, arith, inl, inr,
}
use hikari_sakura.Stacking.Links.{mem, unlink}
use hikari_sakura.Stacking.State.{
  Server, workspace_of, hide, view_unlink_visible, unlink_visible_lists, view_unlink_group_visible,
  clear_focus,
}
use hikari_sakura.Stacking.Pointer.{Hit, Sees, cursor_focus}
use hikari_sakura.Stacking.Invariant.{Inv, hide-Inv}
use hikari_sakura.Stacking.Focus.{cursor_focus-Inv, cursor_focus_keeps}
use hikari_sakura.Stacking.Walk.{walk, each, onto, Settles, walk_lem, mem-onto}

unfoldable pub clear : (Server → Hit) → ℕ → Server → Server
unfolding hide cursor_focus
clear hit w s = cursor_focus hit (walk (λ t. t.workspace_views w) hide s)

clear_settles : (w : ℕ) → Settles (λ s. s.workspace_views w) hide (λ v s. true ≡ false)
unfolding hide view_unlink_visible unlink_visible_lists view_unlink_group_visible clear_focus unlink
clear_settles w = record {
  stays = λ u v s d. d;
  idle = λ v s d. absurd (ground arith);
  moves = λ v s. inr (inl refl);
}

cleared_views :
    (w : ℕ) (vs : List ℕ) (s : Server)
    → Inv s
    → s.locked ≡ false
    → let t = each (λ s. s.workspace_views w) hide vs s in
      Inv t
      × (t.locked ≡ false)
      × ((u : ℕ) → t.view u ≡ (if mem u vs then record (s.view u) { hidden = true } else s.view u))
unfolding each mem hide view_unlink_visible unlink_visible_lists view_unlink_group_visible
    clear_focus
cleared_views w [] s i unlocked = (i, unlocked, λ u. refl)
cleared_views w (v ∷ vs) s i unlocked =
    let rest = cleared_views w vs (hide v s) (hide-Inv v s (i.unforced unlocked v) i) unlocked in
    (rest.0, rest.1, λ u. ground (arith, rest.2 u))

-- Clearing a workspace of an unlocked screen keeps the invariant and hides exactly the views
-- that are mapped on the workspace. The refocus meets visible views only.
pub clear_lem :
    (hit : Server → Hit) (w : ℕ) (s : Server)
    → Sees hit
    → Inv s
    → s.locked ≡ false
    → Inv (clear hit w s)
      × ((u : ℕ)
          → (clear hit w s).view u ≡ (
              if (s.view u).mapped && workspace_of (s.view u).sheet == w
              then record (s.view u) { hidden = true }
              else s.view u))
unfolding clear mem
clear_lem hit w s sees i unlocked =
    let order = onto (s.workspace_views w) [] in
    let r = cleared_views w order s i unlocked in
    rw (walk_lem (λ t. t.workspace_views w) hide _ (clear_settles w) s (i.links.workspace_once w)) (
      cursor_focus-Inv hit _ sees r.0,
      λ u.
          ap (λ f. f u) (cursor_focus_keeps hit (each (λ t. t.workspace_views w) hide order s)).0
          ∙ ground (
            arith,
            r.2 u,
            mem-onto u (s.workspace_views w) [],
            i.links.on_workspace w u,
            i.unforced unlocked u,
            i.only_mapped u,
          ),
    )
