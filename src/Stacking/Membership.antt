-- ===== src/Stacking/Membership.antt =====
-- Which sheet, group and output list a view stands in: view.c's links that do not depend on
-- visibility.
use hikari_sakura.Prelude.{
  ℕ, Bool, true, false, ◌==◌, ◌&&◌, ◌≡◌, arith, if◌then◌else◌, Bool-cases, inl, inr,
}
use hikari_sakura.Stacking.Links.{
  mem, is_empty, Distinct, mem-remove, mem-relink_at, mem-unlink, relink_at-Distinct,
  nonempty_of_unlink, is_empty_of_mem, nonempty_of_relink_at,
}
use hikari_sakura.Stacking.State.{Server, move_to, detach_from_group}

-- A mapped view stands once in the list of its sheet, of its group and of its output, and in no
-- other list; an unmapped one in none. A group that holds views has not been freed.
pub record IsMember (s : Server) : Type 0 where
  pub on_sheet : (k v : ℕ) → mem v (s.sheet_views k) ≡ ((s.view v).mapped && (s.view v).sheet == k)
  pub in_group : (k v : ℕ) → mem v (s.group_views k) ≡ ((s.view v).mapped && (s.view v).group == k)
  pub on_output :
      (k v : ℕ) → mem v (s.output_views k) ≡ ((s.view v).mapped && (s.view v).output == k)
  pub alive : (g : ℕ) → is_empty (s.group_views g) ≡ false → mem g s.groups ≡ true
  pub sheet_once : (k : ℕ) → Distinct (s.sheet_views k)
  pub in_group_once : (k : ℕ) → Distinct (s.group_views k)
  pub output_once : (k : ℕ) → Distinct (s.output_views k)

-- The same, of every view but one that is about to be linked to its sheet, group and output.
pub record IsMemberBut (v : ℕ) (s : Server) : Type 0 where
  pub on_sheet :
      (k u : ℕ)
      → (u == v) ≡ false
      → mem u (s.sheet_views k) ≡ ((s.view u).mapped && (s.view u).sheet == k)
  pub in_group :
      (k u : ℕ)
      → (u == v) ≡ false
      → mem u (s.group_views k) ≡ ((s.view u).mapped && (s.view u).group == k)
  pub on_output :
      (k u : ℕ)
      → (u == v) ≡ false
      → mem u (s.output_views k) ≡ ((s.view u).mapped && (s.view u).output == k)
  pub own_mapped : (s.view v).mapped ≡ true
  pub own_alive : mem (s.view v).group s.groups ≡ true
  pub alive : (g : ℕ) → is_empty (s.group_views g) ≡ false → mem g s.groups ≡ true
  pub sheet_once : (k : ℕ) → Distinct (s.sheet_views k)
  pub in_group_once : (k : ℕ) → Distinct (s.group_views k)
  pub output_once : (k : ℕ) → Distinct (s.output_views k)

pub IsMember-IsMemberBut :
    (v : ℕ) (s : Server) → IsMember s → (s.view v).mapped ≡ true → IsMemberBut v s
IsMember-IsMemberBut v s i m = record {
  on_sheet = λ k u _. i.on_sheet k u;
  in_group = λ k u _. i.in_group k u;
  on_output = λ k u _. i.on_output k u;
  own_mapped = m;
  own_alive = i.alive (s.view v).group (
      is_empty_of_mem v (s.group_views (s.view v).group)
        (ground (arith, i.in_group (s.view v).group v)));
  alive = i.alive;
  sheet_once = i.sheet_once;
  in_group_once = i.in_group_once;
  output_once = i.output_once;
}

relink_alive :
    (front : Bool) (v : ℕ) (s : Server)
    → IsMemberBut v s
    → (g : ℕ) → is_empty ((move_to front v s).group_views g) ≡ false
    → mem g s.groups ≡ true
unfolding move_to
relink_alive front v s b g h = elim (Bool-cases (g == (s.view v).group)) [
  | inl own ↦ ground (arith, b.own_alive)
  | inr other ↦ b.alive g (nonempty_of_relink_at front v (s.view v).group s.group_views g other h)
]

-- Moving a view to an end of its lists links it to its sheet, group and output.
pub move_to-IsMember :
    (front : Bool) (v : ℕ) (s : Server) → IsMemberBut v s → IsMember (move_to front v s)
unfolding move_to
move_to-IsMember front v s b = record {
  on_sheet = λ k u. ground (
    arith,
    mem-relink_at front u v (s.view v).sheet s.sheet_views k,
    b.on_sheet k u,
    b.own_mapped,
  );
  in_group = λ k u. ground (
    arith,
    mem-relink_at front u v (s.view v).group s.group_views k,
    b.in_group k u,
    b.own_mapped,
  );
  on_output = λ k u. ground (
    arith,
    mem-relink_at front u v (s.view v).output s.output_views k,
    b.on_output k u,
    b.own_mapped,
  );
  alive = relink_alive front v s b;
  sheet_once = λ k. relink_at-Distinct front v (s.view v).sheet s.sheet_views k (b.sheet_once k);
  in_group_once =
      λ k. relink_at-Distinct front v (s.view v).group s.group_views k (b.in_group_once k);
  output_once =
      λ k. relink_at-Distinct front v (s.view v).output s.output_views k (b.output_once k);
}

-- Leaving the group frees it if it is left empty; the view stands in no group list afterwards.
pub detach-in_group :
    (v : ℕ) (s : Server) (k u : ℕ)
    → mem u ((detach_from_group v s).group_views k)
      ≡ (if u == v then false else mem u (s.group_views k))
unfolding detach_from_group
detach-in_group v s k u = mem-unlink u v s.group_views k

pub detach-alive :
    (v : ℕ) (s : Server)
    → ((g : ℕ) → is_empty (s.group_views g) ≡ false → mem g s.groups ≡ true)
    → (g : ℕ) → is_empty ((detach_from_group v s).group_views g) ≡ false
    → mem g (detach_from_group v s).groups ≡ true
unfolding detach_from_group
detach-alive v s alive g h = ground (
  arith,
  alive g (nonempty_of_unlink v s.group_views g h),
  mem-remove g (s.view v).group s.groups,
)
