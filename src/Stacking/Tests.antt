-- ===== src/Stacking/Tests.antt =====
-- The linkage of view.c and lock_mode.c on concrete servers, and the theorems at them.
use hikari_sakura.Prelude.{
  ◌+◌, ◌*◌, true, false, not, none, [], ◌∷◌, if◌then◌else◌, ◌≡◌, refl, arith, inl,
}
use hikari_sakura.Stacking.Links.{mem, relink, remove, relink_at}
use hikari_sakura.Stacking.State.{
  Server, linked, focus, show, raise_view, move_to, view_link_visible_at, view_unlink_visible,
  unlink_visible_lists, view_unlink_group_visible,
}
use hikari_sakura.Stacking.Pointer.{
  Hit, ignored, background, on_view, Sees, cursor_focus, focus_hit,
}
use hikari_sakura.Stacking.Mapping.{map_view, unmap_view, link_mapped, clear_focus_in, hide_in}
use hikari_sakura.Stacking.Invariant.{Inv}
use hikari_sakura.Stacking.Lifecycle.{map_view-Inv}
use hikari_sakura.Stacking.Unmap.{unmap_view-Inv}
use hikari_sakura.Stacking.Dangling.{Dangles, unmap_view-lock_mode_enter, unmap_view_elsewhere}
use hikari_sakura.Stacking.Focus.{focus-Inv}
use hikari_sakura.Stacking.Lock.{lock_mode_enter, lock_mode_cancel}
use hikari_sakura.Stacking.Locking.{HasOutputs, cancel-enter, lock_mode_enter_privacy}

-- A server before any view is mapped: the view `v` belongs to the sheet `v`.
abbrev pub start : Server
start = record {
  view = λ v. record {
    sheet = v;
    group = 0;
    output = 0;
    hidden = true;
    invisible = false;
    floating = false;
    public = false;
    forced = false;
    mapped = false;
    tiled = false;
  };
  sheet_views = λ k. [];
  group_views = λ k. [];
  output_views = λ k. [];
  workspace_views = λ k. [];
  group_visible_views = λ k. [];
  visible_views = [];
  visible_groups = [];
  groups = [];
  focus_view = λ w. none;
  workspace = 0;
  outputs = 0 ∷ [];
  sheet = λ w. 10 * w + 1;
  alternate_sheet = λ w. 10 * w + 1;
  locked = false;
}

pub start-Inv : Inv start
unfolding mem
start-Inv = record {
  members = record {
    on_sheet = λ k v. ground arith;
    in_group = λ k v. ground arith;
    on_output = λ k v. ground arith;
    alive = λ g h. ground arith;
    sheet_once = λ k. tt;
    in_group_once = λ k. tt;
    output_once = λ k. tt;
  };
  links = record {
    on_server = λ v. ground arith;
    in_group = λ g v. ground arith;
    on_workspace = λ w v. ground arith;
    groups = λ g. ground arith;
    server_once = tt;
    group_once = λ g. tt;
    workspace_once = λ w. tt;
    groups_once = tt;
    focused = λ w v h. ground arith;
  };
  only_mapped = λ v h. ground arith;
  forced_mapped = λ v h. ground arith;
  displays = λ w. (omega arith, omega arith);
  unforced = λ h v. refl;
}

-- The pointer rests where the view 1 is, when it is visible.
abbrev pub pointer : Server → Hit
pointer s = if s.locked then ignored else if linked (s.view 1) then on_view 1 else ignored

pub pointer-Sees : Sees pointer
pointer-Sees = record { visible = λ s v h. ground arith; not_locked = λ s h. ground arith }

-- One view in the group 4, then a second one in the group 5.
abbrev pub one : Server
one = map_view pointer 1 4 start

abbrev pub two : Server
two = map_view pointer 2 5 one

one-Inv : Inv one
one-Inv = map_view-Inv 1 4 start start-Inv refl pointer pointer-Sees refl refl

map_view-Inv_example : Inv (map_view pointer 2 5 one)
unfolding map_view cursor_focus focus_hit focus link_mapped show raise_view move_to
    view_link_visible_at
map_view-Inv_example = map_view-Inv 2 5 one one-Inv refl pointer pointer-Sees refl refl

pub two-Inv : Inv two
unfolding map_view cursor_focus focus_hit focus link_mapped show raise_view move_to
    view_link_visible_at
two-Inv = map_view-Inv 2 5 one one-Inv refl pointer pointer-Sees refl refl

two_orders : (two.visible_views ≡ 2 ∷ 1 ∷ []) × (two.workspace_views 0 ≡ 2 ∷ 1 ∷ [])
unfolding map_view cursor_focus focus_hit focus link_mapped show raise_view move_to
    view_link_visible_at relink remove relink_at
two_orders = (refl, refl)

unmap_view-Inv_example : Inv (unmap_view pointer true 2 two)
unfolding map_view cursor_focus focus_hit focus link_mapped show raise_view move_to
    view_link_visible_at
unmap_view-Inv_example =
    unmap_view-Inv pointer true 2 two pointer-Sees two-Inv (inl refl) (λ h w. ground arith)

two-HasOutputs : HasOutputs two
unfolding map_view cursor_focus focus_hit focus link_mapped show raise_view move_to
    view_link_visible_at mem
two-HasOutputs = record { once = (refl, tt); listed = λ v h. ground arith }

cancel-enter_example : (lock_mode_cancel (lock_mode_enter two)).view 2 ≡ two.view 2
unfolding map_view cursor_focus focus_hit focus link_mapped show raise_view move_to
    view_link_visible_at
cancel-enter_example = cancel-enter two 2 two-Inv two-HasOutputs refl

lock_mode_enter_privacy_example : ((lock_mode_enter two).view 1).hidden ≡ not (two.view 1).public
unfolding map_view cursor_focus focus_hit focus link_mapped show raise_view move_to
    view_link_visible_at
lock_mode_enter_privacy_example = lock_mode_enter_privacy two 1 two-Inv two-HasOutputs refl

-- The workspace 1 is current, and the view 1 still has the focus of the workspace 0.
abbrev elsewhere : Server
elsewhere = focus 1 none two

elsewhere-HasOutputs : HasOutputs elsewhere
unfolding map_view cursor_focus focus_hit focus link_mapped show raise_view move_to
    view_link_visible_at mem
elsewhere-HasOutputs = record { once = (refl, tt); listed = λ v h. ground arith }

unmap_view-lock_mode_enter_example :
    Dangles 0 1 (unmap_view pointer false 1 (lock_mode_enter elsewhere))
unfolding map_view cursor_focus focus_hit focus link_mapped show raise_view move_to
    view_link_visible_at
unmap_view-lock_mode_enter_example =
    unmap_view-lock_mode_enter pointer 1 0 elsewhere
      (focus-Inv 1 none two two-Inv (λ v h. ground arith)) elsewhere-HasOutputs refl refl refl refl

-- The pointer has gone to the screen of the workspace 1, where no view is.
abbrev away : Server → Hit
away s = if s.locked then ignored else background 1

unmap_view_elsewhere_example : Dangles 0 1 (unmap_view away false 1 two)
unfolding map_view cursor_focus focus_hit focus link_mapped show raise_view move_to
    view_link_visible_at hide_in clear_focus_in view_unlink_visible unlink_visible_lists
    view_unlink_group_visible
unmap_view_elsewhere_example = unmap_view_elsewhere away 1 1 two two-Inv refl refl refl refl refl
