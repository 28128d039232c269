-- ===== src/Workspace/Loops.antt =====
-- The three loops of `display_sheet`: what each does to every view.
use hikari_sakura.Prelude.{
  ℕ, Bool, true, false, not, ◌==◌, ◌&&◌, if◌then◌else◌, if_elim, List, [], ◌∷◌, ◌≡◌, refl, ◌∙◌,
  arith, ◌⊎◌, inl, inr,
}
use hikari_sakura.Stacking.Links.{mem, remove, relink, unlink, relink_at}
use hikari_sakura.Stacking.State.{
  View, Server, set_hidden, show, hide, raise_view, move_to, view_link_visible_at, clear_focus,
  view_unlink_visible, unlink_visible_lists, view_unlink_group_visible,
}
use hikari_sakura.Stacking.Invariant.{Inv, hide-Inv, show-Inv}
use hikari_sakura.Stacking.Walk.{each, onto, Settles, walk_lem, mem-onto}
use hikari_sakura.Workspace.Sheets.{sheet_at}
use hikari_sakura.Workspace.Display.{hide_body, show_body, hide_others, show_sheet}

-- A view that is on neither of the two sheets.
abbrev pub elsewhere : ℕ → ℕ → View → Bool
elsewhere w sheet r = not (r.sheet == sheet) && not (r.sheet == sheet_at w 0)

-- What the three loops leave alone.
abbrev pub Kept : Server → Server → Type 0
Kept s t = (t.locked ≡ s.locked) × (t.sheet ≡ s.sheet) × (t.alternate_sheet ≡ s.alternate_sheet)

-- What the walk asks of a list after a step, for the list before it.
abbrev Moves : ℕ → List ℕ → Type 0 → List ℕ → Type 0
Moves v l Done l' = (l' ≡ l) ⊎ (l' ≡ remove v l) ⊎ ((l' ≡ relink true v l) × Done)

hide_settles :
    (w sheet : ℕ)
    → Settles
        (λ s. s.workspace_views w)
        (hide_body w sheet)
        (λ v s. (elsewhere w sheet (s.view v) && not (s.view v).hidden) ≡ false)
unfolding hide_body hide view_unlink_visible unlink_visible_lists view_unlink_group_visible
    clear_focus unlink
hide_settles w sheet = record {
  stays = λ u v s d. ground arith;
  idle = λ v s d. ground arith;
  moves = λ v s.
      let P : Server → Type 0 = λ t.
        Moves v (s.workspace_views w)
          ((elsewhere w sheet (t.view v) && not (t.view v).hidden) ≡ false) (t.workspace_views w) in
      if_elim P (elsewhere w sheet (s.view v))
        (λ _. if_elim P (not (s.view v).hidden) (λ _. inr (inl refl)) (λ _. inl refl))
        (λ _. inl refl);
}

show_settles :
    (sheet : ℕ)
    → Settles
        (λ s. s.sheet_views sheet)
        show_body
        (λ v s. (not (s.view v).invisible && (s.view v).hidden) ≡ false)
unfolding show_body show raise_view move_to view_link_visible_at relink_at
show_settles sheet = record {
  stays = λ u v s d. ground arith;
  idle = λ v s d. ground arith;
  moves = λ v s.
      if_elim
        (λ (t : Server).
          Moves v (s.sheet_views sheet) ((not (t.view v).invisible && (t.view v).hidden) ≡ false)
            (t.sheet_views sheet))
        (not (s.view v).invisible && (s.view v).hidden)
        (λ _.
          if_elim
            (Moves v (s.sheet_views sheet)
              ((not ((show v s).view v).invisible && ((show v s).view v).hidden) ≡ false))
            (sheet == ((set_hidden false v s).view v).sheet) (λ _. inr (inr (refl, ground arith)))
            (λ _. inr (inl refl)))
        (λ _. inl refl);
}

module _ (w sheet : ℕ) where
  hide_one :
      (v : ℕ) (s : Server)
      → Inv s
      → s.locked ≡ false
      → let t = hide_body w sheet v s in
        Inv t
        × Kept s t
        × ((u : ℕ)
            → t.view u ≡ (
                if u == v && elsewhere w sheet (s.view u)
                then record (s.view u) { hidden = true }
                else s.view u))
  unfolding hide_body hide view_unlink_visible unlink_visible_lists view_unlink_group_visible
      clear_focus
  hide_one v s i unlocked = (
    if_elim Inv (elsewhere w sheet (s.view v))
        (λ _.
          if_elim Inv (not (s.view v).hidden) (λ _. hide-Inv v s (i.unforced unlocked v) i)
            (λ _. i))
        (λ _. i),
    if_elim (Kept s) (elsewhere w sheet (s.view v))
        (λ _.
          if_elim (Kept s) (not (s.view v).hidden) (λ _. (refl, refl, refl))
            (λ _. (refl, refl, refl)))
        (λ _. (refl, refl, refl)),
    λ u. ground arith,
  )

  -- The first loop at the views of a list: it hides those that are on other sheets.
  hide_each :
      (vs : List ℕ) (s : Server)
      → Inv s
      → s.locked ≡ false
      → let t = each (λ s. s.workspace_views w) (hide_body w sheet) vs s in
        Inv t
        × Kept s t
        × ((u : ℕ)
            → t.view u ≡ (
                if mem u vs && elsewhere w sheet (s.view u)
                then record (s.view u) { hidden = true }
                else s.view u))
  unfolding each mem
  hide_each [] s i unlocked = (i, (refl, refl, refl), λ u. refl)
  hide_each (v ∷ vs) s i unlocked =
      let step = hide_one v s i unlocked in
      let rest = hide_each vs (hide_body w sheet v s) step.0 (step.1.0 ∙ unlocked) in
      (
        rest.0,
        (rest.1.0 ∙ step.1.0, rest.1.1 ∙ step.1.1, rest.1.2 ∙ step.1.2),
        λ u. ground (arith, rest.2 u, step.2 u),
      )

show_one :
    (v : ℕ) (s : Server)
    → Inv s
    → s.locked ≡ false
    → (s.view v).mapped ≡ true
    → let t = show_body v s in
      Inv t
      × Kept s t
      × ((u : ℕ)
          → t.view u ≡ (
              if u == v && not (s.view u).invisible
              then record (s.view u) { hidden = false }
              else s.view u))
unfolding show_body show raise_view move_to view_link_visible_at
show_one v s i unlocked mapped = (
  if_elim Inv (not (s.view v).invisible && (s.view v).hidden)
      (λ _. show-Inv v s mapped (i.unforced unlocked v) i) (λ _. i),
  if_elim (Kept s) (not (s.view v).invisible && (s.view v).hidden) (λ _. (refl, refl, refl))
      (λ _. (refl, refl, refl)),
  λ u. ground arith,
)

-- The other loops at the views of a list: they show those that are not invisible.
show_each :
    (sheet : ℕ) (vs : List ℕ) (s : Server)
    → Inv s
    → s.locked ≡ false
    → ((u : ℕ) → mem u vs ≡ true → (s.view u).mapped ≡ true)
    → let t = each (λ s. s.sheet_views sheet) show_body vs s in
      Inv t
      × Kept s t
      × ((u : ℕ)
          → t.view u ≡ (
              if mem u vs && not (s.view u).invisible
              then record (s.view u) { hidden = false }
              else s.view u))
unfolding each mem
show_each sheet [] s i unlocked mapped = (i, (refl, refl, refl), λ u. refl)
show_each sheet (v ∷ vs) s i unlocked mapped =
    let step = show_one v s i unlocked (mapped v (ground arith)) in
    let rest =
      show_each sheet vs (show_body v s) step.0 (step.1.0 ∙ unlocked)
        (λ u h. ground (arith, step.2 u, mapped u)) in
    (
      rest.0,
      (rest.1.0 ∙ step.1.0, rest.1.1 ∙ step.1.1, rest.1.2 ∙ step.1.2),
      λ u. ground (arith, rest.2 u, step.2 u),
    )

pub hide_others_lem :
    (w sheet : ℕ) (s : Server)
    → Inv s
    → s.locked ≡ false
    → let t = hide_others w sheet s in
      Inv t
      × Kept s t
      × ((u : ℕ)
          → t.view u ≡ (
              if mem u (s.workspace_views w) && elsewhere w sheet (s.view u)
              then record (s.view u) { hidden = true }
              else s.view u))
unfolding hide_others mem
hide_others_lem w sheet s i unlocked =
    let order = onto (s.workspace_views w) [] in
    let r = hide_each w sheet order s i unlocked in
    rw
      (walk_lem (λ t. t.workspace_views w) (hide_body w sheet) _ (hide_settles w sheet) s
        (i.links.workspace_once w))
      (r.0, r.1, λ u. ground (arith, r.2 u, mem-onto u (s.workspace_views w) []))

pub show_sheet_lem :
    (sheet : ℕ) (s : Server)
    → Inv s
    → s.locked ≡ false
    → let t = show_sheet sheet s in
      Inv t
      × Kept s t
      × ((u : ℕ)
          → t.view u ≡ (
              if mem u (s.sheet_views sheet) && not (s.view u).invisible
              then record (s.view u) { hidden = false }
              else s.view u))
unfolding show_sheet mem
show_sheet_lem sheet s i unlocked =
    let order = onto (s.sheet_views sheet) [] in
    let r =
      show_each sheet order s i unlocked
        (λ u h. ground (arith, mem-onto u (s.sheet_views sheet) [], i.members.on_sheet sheet u)) in
    rw
      (walk_lem (λ t. t.sheet_views sheet) show_body _ (show_settles sheet) s
        (i.members.sheet_once sheet))
      (r.0, r.1, λ u. ground (arith, r.2 u, mem-onto u (s.sheet_views sheet) []))
