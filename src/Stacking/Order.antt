-- ===== src/Stacking/Order.antt =====
-- Where raising and lowering a view puts it among the visible views (view.c).
use hikari_sakura.Prelude.{ℕ, true, if_elim, List, [], ◌∷◌, ◌++◌, ◌≡◌, refl, arith}
use hikari_sakura.Stacking.Links.{mem, remove, relink, Distinct, remove_absent}
use hikari_sakura.Stacking.State.{
  Server, has, first, last, raise, lower, raise_view, move_to, view_link_visible_at,
}
use hikari_sakura.Stacking.Invariant.{Inv}

already_first : (v : ℕ) (xs : List ℕ) → Distinct xs → has (first xs) v ≡ true → xs ≡ v ∷ remove v xs
unfolding mem remove
already_first v [] d h = absurd (ground arith)
already_first v (x ∷ xs) d h = ground (arith, remove_absent v xs, d.0)

already_last :
    (v : ℕ) (xs : List ℕ) → Distinct xs → has (last xs) v ≡ true → xs ≡ remove v xs ++ v ∷ []
unfolding mem remove
already_last v [] d h = absurd (ground arith)
already_last v (x ∷ []) d h = ground arith
already_last v (x ∷ y ∷ xs) d h =
    ground (arith, already_last v (y ∷ xs) d.1 h, last_member v (y ∷ xs) h)
  where
    last_member : (v : ℕ) (xs : List ℕ) → has (last xs) v ≡ true → mem v xs ≡ true
    last_member v [] h = absurd (ground arith)
    last_member v (x ∷ []) h = ground arith
    last_member v (x ∷ y ∷ xs) h = ground (arith, last_member v (y ∷ xs) h)

-- Raising a view puts it before all visible views of the server, and keeps the others in order.
-- This holds under the invariant.
pub raise_order :
    (v : ℕ) (s : Server) → Inv s → (raise v s).visible_views ≡ v ∷ remove v s.visible_views
unfolding raise raise_view move_to view_link_visible_at relink
raise_order v s i =
    if_elim (λ (t : Server). t.visible_views ≡ v ∷ remove v s.visible_views)
      (has (first s.visible_views) v) (already_first v s.visible_views i.links.server_once)
      (λ _. refl)

-- Lowering a view puts it behind all visible views of the server, and keeps the others in order.
-- This holds under the invariant.
pub lower_order :
    (v : ℕ) (s : Server) → Inv s → (lower v s).visible_views ≡ remove v s.visible_views ++ v ∷ []
unfolding lower move_to view_link_visible_at relink
lower_order v s i =
    if_elim (λ (t : Server). t.visible_views ≡ remove v s.visible_views ++ v ∷ [])
      (has (last s.visible_views) v) (already_last v s.visible_views i.links.server_once)
      (λ _. refl)
