-- ===== src/Stacking/Locking.antt =====
-- Locking the screen hides every view that is not public, and unlocking undoes it (lock_mode.c).
use hikari_sakura.Prelude.{ℕ, Bool, true, false, not, none, ◌≡◌, arith, if◌then◌else◌}
use hikari_sakura.Stacking.Links.{mem, Distinct}
use hikari_sakura.Stacking.State.{View, Server, linked, focus}
use hikari_sakura.Stacking.Invariant.{Inv}
use hikari_sakura.Stacking.Lock.{
  override_view, reset_view, flag_outputs-at, override_visibility, reset_visibility,
  lock_mode_enter, lock_mode_cancel,
}

-- The outputs that the server lists are the ones that its mapped views are on.
pub record HasOutputs (s : Server) : Type 0 where
  pub once : Distinct s.outputs
  pub listed : (v : ℕ) → (s.view v).mapped ≡ true → mem (s.view v).output s.outputs ≡ true

-- Two records that stand in the same lists.
abbrev SamePlace : View → View → Type 0
SamePlace r q =
    (r.mapped ≡ q.mapped)
    × (r.sheet ≡ q.sheet)
    × (r.group ≡ q.group)
    × (r.output ≡ q.output)
    × (linked r ≡ linked q)

-- Flags may change as long as they say the same about the links.
reflag-Inv :
    (s : Server) (views : ℕ → View) (b : Bool)
    → Inv s
    → ((u : ℕ) → SamePlace (views u) (s.view u))
    → ((u : ℕ) → (views u).forced ≡ true → (views u).mapped ≡ true)
    → (b ≡ false → (u : ℕ) → (views u).forced ≡ false)
    → Inv (record s { view = views; locked = b })
reflag-Inv s views b i same mapped free = record {
  members = record {
    on_sheet = λ k u. ground (arith, i.members.on_sheet k u, same u);
    in_group = λ k u. ground (arith, i.members.in_group k u, same u);
    on_output = λ k u. ground (arith, i.members.on_output k u, same u);
    alive = i.members.alive;
    sheet_once = i.members.sheet_once;
    in_group_once = i.members.in_group_once;
    output_once = i.members.output_once;
  };
  links = record {
    on_server = λ u. ground (arith, i.links.on_server u, same u);
    in_group = λ k u. ground (arith, i.links.in_group k u, same u);
    on_workspace = λ w u. ground (arith, i.links.on_workspace w u, same u);
    groups = i.links.groups;
    server_once = i.links.server_once;
    group_once = i.links.group_once;
    workspace_once = i.links.workspace_once;
    groups_once = i.links.groups_once;
    focused = λ w u h. ground (arith, i.links.focused w u, same u);
  };
  only_mapped = λ u h. ground (arith, i.only_mapped u, same u);
  forced_mapped = mapped;
  displays = i.displays;
  unforced = free;
}

unfocus-Inv : (s : Server) → Inv s → Inv (focus s.workspace none s)
unfolding focus
unfocus-Inv s i = record {
  members = record {
    on_sheet = i.members.on_sheet;
    in_group = i.members.in_group;
    on_output = i.members.on_output;
    alive = i.members.alive;
    sheet_once = i.members.sheet_once;
    in_group_once = i.members.in_group_once;
    output_once = i.members.output_once;
  };
  links = record {
    on_server = i.links.on_server;
    in_group = i.links.in_group;
    on_workspace = i.links.on_workspace;
    groups = i.links.groups;
    server_once = i.links.server_once;
    group_once = i.links.group_once;
    workspace_once = i.links.workspace_once;
    groups_once = i.links.groups_once;
    focused = λ w u h. ground (arith, i.links.focused w u);
  };
  only_mapped = i.only_mapped;
  forced_mapped = i.forced_mapped;
  displays = i.displays;
  unforced = i.unforced;
}

override_keeps :
    (r : View) → ((override_view r).mapped ≡ r.mapped) × ((override_view r).output ≡ r.output)
unfolding override_view
override_keeps r = ground arith

reset_keeps : (r : View) → ((reset_view r).mapped ≡ r.mapped) × ((reset_view r).output ≡ r.output)
unfolding reset_view
reset_keeps r = ground arith

-- What `override_visibility` leaves of a view.
pub locked_view :
    (s : Server) (u : ℕ)
    → Inv s
    → HasOutputs s
    → (lock_mode_enter s).view u
      ≡ (if (s.view u).mapped then override_view (s.view u) else s.view u)
unfolding lock_mode_enter override_visibility focus
locked_view s u i o = ground (
  arith,
  flag_outputs-at override_view override_keeps s.output_views i.members.output_once s.outputs s.view
      u o.once (λ k. i.members.on_output k u),
  o.listed u,
)

overridden : (r : View) → r.forced ≡ false → SamePlace (override_view r) r
unfolding override_view
overridden r free = ground arith

restored : (r : View) → SamePlace (reset_view r) r
unfolding reset_view
restored r = ground arith

-- Locking an unlocked screen keeps the invariant: the links stay as they are, and the flags
-- still say who is linked. The server lists the outputs of its mapped views.
pub lock_mode_enter-Inv :
    (s : Server) → Inv s → HasOutputs s → s.locked ≡ false → Inv (lock_mode_enter s)
unfolding lock_mode_enter override_visibility focus
lock_mode_enter-Inv s i o unlocked =
    reflag-Inv (focus s.workspace none s) (lock_mode_enter s).view true (unfocus-Inv s i)
      (λ u. ground (arith, locked_view s u i o, i.unforced unlocked u, overridden (s.view u)))
      (λ u h. ground (arith, locked_view s u i o, i.forced_mapped u)) (λ impossible u. ground arith)

-- What `reset_visibility` leaves of a view.
unlocked_view :
    (s : Server) (u : ℕ)
    → Inv s
    → HasOutputs s
    → (lock_mode_cancel s).view u ≡ (if (s.view u).mapped then reset_view (s.view u) else s.view u)
unfolding lock_mode_cancel reset_visibility
unlocked_view s u i o = ground (
  arith,
  flag_outputs-at reset_view reset_keeps s.output_views i.members.output_once s.outputs s.view u
      o.once (λ k. i.members.on_output k u),
  o.listed u,
)

reset_unforced : (r : View) → (reset_view r).forced ≡ false
unfolding reset_view
reset_unforced r = ground arith

-- Unlocking keeps the invariant, whatever was mapped or unmapped in the meantime: no view stays
-- forced. The server lists the outputs of its mapped views.
pub lock_mode_cancel-Inv : (s : Server) → Inv s → HasOutputs s → Inv (lock_mode_cancel s)
unfolding lock_mode_cancel reset_visibility
lock_mode_cancel-Inv s i o =
    reflag-Inv s (lock_mode_cancel s).view false i
      (λ u. ground (arith, unlocked_view s u i o, restored (s.view u)))
      (λ u h. ground (arith, unlocked_view s u i o, reset_unforced (s.view u), i.forced_mapped u))
      (λ _ u. ground (arith, unlocked_view s u i o, reset_unforced (s.view u), i.forced_mapped u))

reset-override : (r : View) → r.forced ≡ false → reset_view (override_view r) ≡ r
unfolding reset_view override_view
reset-override r free = ground arith

still : (s : Server) → Inv s → HasOutputs s → HasOutputs (lock_mode_enter s)
unfolding lock_mode_enter override_visibility focus
still s i o = record {
  once = o.once;
  listed = λ v h. ground (arith, o.listed v, locked_view s v i o, override_keeps (s.view v));
}

-- Unlocking a screen on which nothing has happened since it was locked gives every view the
-- flags that it had. This holds under the invariant. The server lists the outputs of its mapped
-- views.
pub cancel-enter :
    (s : Server) (v : ℕ)
    → Inv s
    → HasOutputs s
    → s.locked ≡ false
    → (lock_mode_cancel (lock_mode_enter s)).view v ≡ s.view v
unfolding lock_mode_enter override_visibility focus
cancel-enter s v i o unlocked = ground (
  arith,
  unlocked_view (lock_mode_enter s) v (lock_mode_enter-Inv s i o unlocked) (still s i o),
  locked_view s v i o,
  reset-override (s.view v),
  override_keeps (s.view v),
  i.unforced unlocked v,
)

-- On a locked screen exactly the public views are not hidden, of those that are mapped. This
-- holds under the invariant. The server lists the outputs of its mapped views.
pub lock_mode_enter_privacy :
    (s : Server) (v : ℕ)
    → Inv s
    → HasOutputs s
    → (s.view v).mapped ≡ true
    → ((lock_mode_enter s).view v).hidden ≡ not (s.view v).public
unfolding override_view
lock_mode_enter_privacy s v i o mapped = ground (arith, locked_view s v i o)
