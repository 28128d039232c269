-- ===== src/Operations/Sound.antt =====
-- The pointers that view.c keeps to its boxes, and what a pending operation needs.
use hikari_sakura.Prelude.{
  ℕ, Bool, true, false, not, ◌==◌, if_elim, Option, none, some, ℤ, ◌≡◌, refl, arith, ◌⊎◌, inl,
}
use hikari_sakura.Geometry.{Box}
use hikari_sakura.Operations.Window.{
  OperationType, resize_type, reset_type, unmaximize_type, tile_type, fullscreen_type,
  full_maximize_type, vertical_maximize_type, horizontal_maximize_type, vertically_maximized,
  horizontally_maximized, OwnTile, MaximizedState, Operation, Window, Context, fullscreen_box,
  is_dirty, set_dirty, refresh_geometry, write_box, geometry_slot, unmaximized_slot,
}
use hikari_sakura.Operations.Commit.{
  set_border, unshadow_fullscreen, commit_operation, view_commit, commit_pending, prepared,
  finished, drop_maximized, tile_state,
}
use hikari_sakura.Operations.Queue.{resize, set_serial, resize_or_commit, same_size}

-- The pointers point to the boxes that the state of the view selects, or `current_geometry` still
-- points to the box of a fullscreen that is over, which is part of the view.
pub record IsAligned (w : Window) : Type 0 where
  pub unmaximized : w.current_unmaximized_geometry ≡ unmaximized_slot w
  pub current : (w.current_geometry ≡ geometry_slot w) ⊎ (w.current_geometry ≡ fullscreen_box)

-- Whether an operation can be committed in such a state: a maximization along an axis never
-- meets a view that is maximized along the other one only, and a tile is there.
unfoldable pub is_due : OperationType → Option MaximizedState → Option OwnTile → Bool
is_due vertical_maximize_type none tile = true
is_due vertical_maximize_type (some m) tile = elim m.maximization [
  | horizontally_maximized ↦ false
  | _ ↦ true
]
is_due horizontal_maximize_type none tile = true
is_due horizontal_maximize_type (some m) tile = elim m.maximization [
  | vertically_maximized ↦ false
  | _ ↦ true
]
is_due tile_type m none = false
is_due tile_type m (some t) = true
is_due _ m tile = true

pub record IsSound (w : Window) : Type 0 where
  pub aligned : IsAligned w
  pub due :
      is_dirty w ≡ true
      → is_due w.pending_operation.type_of w.maximized_state w.pending_operation.tile ≡ true

refresh_geometry-IsAligned : (b : Box) (w : Window) → IsAligned (refresh_geometry b w)
unfolding refresh_geometry write_box geometry_slot unmaximized_slot
refresh_geometry-IsAligned b w = record { unmaximized = ground arith; current = inl (ground arith) }

commit_pending-IsAligned :
    (env : Context) (b : Box) (w : Window) → IsAligned (commit_pending env b w)
unfolding commit_pending
commit_pending-IsAligned env b w =
    let r = refresh_geometry-IsAligned b w in
    if_elim IsAligned (not w.hidden) (λ _. r)
      (λ _. record { unmaximized = r.unmaximized; current = r.current })

commit_operation-IsAligned :
    (type : OperationType) (env : Context) (b : Box) (w : Window)
    → IsAligned (commit_operation type env b w)
unfolding commit_operation
commit_operation-IsAligned type env b w = finished-IsAligned type (prepared type env b w)
  where
    finished-IsAligned : (type : OperationType) (t : Window) → IsAligned (finished type env b t)
    finished-IsAligned tile_type t = refresh_geometry-IsAligned b t
    finished-IsAligned resize_type t = commit_pending-IsAligned env b t
    finished-IsAligned reset_type t = commit_pending-IsAligned env b t
    finished-IsAligned unmaximize_type t = commit_pending-IsAligned env b t
    finished-IsAligned full_maximize_type t = commit_pending-IsAligned env b t
    finished-IsAligned vertical_maximize_type t = commit_pending-IsAligned env b t
    finished-IsAligned horizontal_maximize_type t = commit_pending-IsAligned env b t
    finished-IsAligned fullscreen_type t = commit_pending-IsAligned env b t

-- A commit that did not wait leaves an operation that could be committed again, where a tile was
-- not waited for.
commit_operation-due :
    (type : OperationType) (env : Context) (b : Box) (w : Window)
    → w.pending_operation.type_of ≡ type
    → (type ≡ tile_type → is_dirty w ≡ false)
    → is_dirty (commit_operation type env b w) ≡ true
    → let t = commit_operation type env b w in
      is_due t.pending_operation.type_of t.maximized_state t.pending_operation.tile ≡ true
unfolding commit_operation finished prepared commit_pending refresh_geometry write_box geometry_slot
    unmaximized_slot is_due tile_state drop_maximized unshadow_fullscreen set_border
commit_operation-due type env b w e clean d = ground (arith, e, clean, d)

pub view_commit-IsSound :
    (env : Context) (width height : ℤ) (w : Window) → IsSound (view_commit env width height w)
unfolding view_commit
view_commit-IsSound env width height w = record {
  aligned = record { unmaximized = committed.unmaximized; current = committed.current };
  due = λ d. absurd (ground (arith, d));
}
  where
    b : Box
    b = record (w.pending_operation.geometry) { width = width; height = height }

    committed : IsAligned (
        commit_operation w.pending_operation.type_of env b
          (record w { pending_operation = record (w.pending_operation) { geometry = b } }))
    committed =
        commit_operation-IsAligned w.pending_operation.type_of env b
          (record w { pending_operation = record (w.pending_operation) { geometry = b } })

-- What is to be known of a view before the operation in its slot is asked of its client.
pub record IsReady (w : Window) : Type 0 where
  pub aligned : IsAligned w
  pub due : is_due w.pending_operation.type_of w.maximized_state w.pending_operation.tile ≡ true
  pub clean : w.pending_operation.type_of ≡ tile_type → is_dirty w ≡ false

pub resize-IsSound : (env : Context) (w : Window) → IsReady w → IsSound (resize env w)
unfolding resize
resize-IsSound env w r =
    if_elim IsSound env.has_move_resize (λ _. waiting 0)
      (λ _.
        if_elim IsSound (n == 0)
          (λ _. record {
            aligned = commit_operation-IsAligned op.type_of env op.geometry (set_serial n w);
            due = commit_operation-due op.type_of env op.geometry (set_serial n w) refl r.clean;
          })
          (λ _. waiting n))
  where
    op : Operation
    op = w.pending_operation

    n : ℕ
    n = env.resize op.geometry.width op.geometry.height

    waiting : (k : ℕ) → IsSound (set_dirty true (set_serial k w))
    waiting k = record {
      aligned = record { unmaximized = r.aligned.unmaximized; current = r.aligned.current };
      due = λ d. r.due;
    }

pub resize_or_commit-IsSound :
    (env : Context) (current : Box) (w : Window)
    → IsReady w
    → IsSound (resize_or_commit env current w)
unfolding resize_or_commit
resize_or_commit-IsSound env current w r =
    if_elim IsSound (same_size current w.pending_operation.geometry)
      (λ _. view_commit-IsSound env current.width current.height (set_dirty true w))
      (λ _. resize-IsSound env w r)
