-- ===== src/Stacking/Links.antt =====
-- Intrusive `wl_list`s as lists of the ids that they hold, front first. A link stands in one list
-- and at most once there, so `wl_list_remove` is the removal of an id, and does nothing to an id
-- that is not linked (a link that was re-initialised).
use hikari_sakura.Prelude.{
  ℕ, ◌≡◌, refl, sym, Bool, true, false, ◌||◌, ◌==◌, ◌++◌, if◌then◌else◌, List, [], ◌∷◌, arith,
}

unfoldable pub mem : ℕ → List ℕ → Bool
mem v [] = false
mem v (x ∷ xs) = v == x || mem v xs

abbrev pub is_empty : List ℕ → Bool
is_empty [] = true
is_empty (x ∷ xs) = false

-- `wl_list_remove`.
unfoldable pub remove : ℕ → List ℕ → List ℕ
remove v [] = []
remove v (x ∷ xs) = let rest = remove v xs in if v == x then rest else x ∷ rest

-- `wl_list_insert` behind the head, or behind the last link (`list->prev`).
abbrev pub insert : Bool → ℕ → List ℕ → List ℕ
insert true v xs = v ∷ xs
insert false v xs = xs ++ v ∷ []

-- Removes a link and inserts it at one end.
unfoldable pub relink : Bool → ℕ → List ℕ → List ℕ
relink front v xs = insert front v (remove v xs)

-- No id stands twice.
abbrev pub Distinct : List ℕ → Type 0
Distinct [] = Unit {0}
Distinct (x ∷ xs) = (mem x xs ≡ false) × Distinct xs

pub mem-remove :
    (x v : ℕ) (xs : List ℕ) → mem x (remove v xs) ≡ (if x == v then false else mem x xs)
unfolding mem remove
mem-remove x v [] = ground arith
mem-remove x v (y ∷ xs) = ground (arith, mem-remove x v xs)

pub mem-append : (x : ℕ) (xs ys : List ℕ) → mem x (xs ++ ys) ≡ (mem x xs || mem x ys)
unfolding mem
mem-append x [] ys = refl
mem-append x (y ∷ xs) ys = ground (arith, mem-append x xs ys)

pub mem-insert :
    (front : Bool) (x v : ℕ) (xs : List ℕ) → mem x (insert front v xs) ≡ (x == v || mem x xs)
unfolding mem
mem-insert true x v xs = refl
mem-insert false x v xs = ground (arith, mem-append x xs (v ∷ []))

-- Relinking an id makes it a member and changes no other membership.
pub mem-relink :
    (front : Bool) (x v : ℕ) (xs : List ℕ)
    → mem x (relink front v xs) ≡ (if x == v then true else mem x xs)
unfolding relink
mem-relink front x v xs = ground (arith, mem-insert front x v (remove v xs), mem-remove x v xs)

pub remove_absent : (v : ℕ) (xs : List ℕ) → mem v xs ≡ false → remove v xs ≡ xs
unfolding mem remove
remove_absent v [] h = refl
remove_absent v (x ∷ xs) h = ground (arith, remove_absent v xs)

pub remove-Distinct : (v : ℕ) (xs : List ℕ) → Distinct xs → Distinct (remove v xs)
unfolding remove
remove-Distinct v [] d = tt
remove-Distinct v (x ∷ xs) d = ground (arith, remove-Distinct v xs d.1, mem-remove x v xs)

append-Distinct : (v : ℕ) (xs : List ℕ) → mem v xs ≡ false → Distinct xs → Distinct (xs ++ v ∷ [])
unfolding mem
append-Distinct v [] h d = (refl, tt)
append-Distinct v (x ∷ xs) h d = ground (arith, append-Distinct v xs, mem-append x xs (v ∷ []), d.1)

pub relink-Distinct :
    (front : Bool) (v : ℕ) (xs : List ℕ) → Distinct xs → Distinct (relink front v xs)
unfolding relink
relink-Distinct true v xs d = (ground (arith, mem-remove v v xs), remove-Distinct v xs d)
relink-Distinct false v xs d =
    append-Distinct v (remove v xs) (ground (arith, mem-remove v v xs)) (remove-Distinct v xs d)

pub relink_nonempty : (front : Bool) (v : ℕ) (xs : List ℕ) → is_empty (relink front v xs) ≡ false
unfolding relink
relink_nonempty true v xs = refl
relink_nonempty false v xs = last (remove v xs)
  where
    last : (ys : List ℕ) → is_empty (ys ++ v ∷ []) ≡ false
    last [] = refl
    last (y ∷ ys) = refl

pub is_empty-remove : (v : ℕ) (xs : List ℕ) → is_empty (remove v xs) ≡ false → is_empty xs ≡ false
unfolding remove
is_empty-remove v [] h = h
is_empty-remove v (x ∷ xs) h = refl

pub is_empty_of_mem : (v : ℕ) (xs : List ℕ) → mem v xs ≡ true → is_empty xs ≡ false
unfolding mem
is_empty_of_mem v [] h = sym h
is_empty_of_mem v (x ∷ xs) h = refl

-- A link taken out of whichever list holds it.
unfoldable pub unlink : ℕ → (ℕ → List ℕ) → ℕ → List ℕ
unlink v lists k = remove v (lists k)

-- A link taken out of whichever list holds it, and inserted at one end of the list `at`.
unfoldable pub relink_at : Bool → ℕ → ℕ → (ℕ → List ℕ) → ℕ → List ℕ
relink_at front v at lists k = if k == at then relink front v (lists k) else remove v (lists k)

-- Members of a family of lists, of which each may hold the link.
pub mem-relink_at :
    (front : Bool) (u v at : ℕ) (lists : ℕ → List ℕ) (k : ℕ)
    → mem u (relink_at front v at lists k) ≡ (if u == v then k == at else mem u (lists k))
unfolding relink_at
mem-relink_at front u v at lists k =
    ground (arith, mem-relink front u v (lists k), mem-remove u v (lists k))

pub mem-unlink :
    (u v : ℕ) (lists : ℕ → List ℕ) (k : ℕ)
    → mem u (unlink v lists k) ≡ (if u == v then false else mem u (lists k))
unfolding unlink
mem-unlink u v lists k = mem-remove u v (lists k)

pub relink_at-Distinct :
    (front : Bool) (v at : ℕ) (lists : ℕ → List ℕ) (k : ℕ)
    → Distinct (lists k)
    → Distinct (relink_at front v at lists k)
unfolding relink_at
relink_at-Distinct front v at lists k d =
    ground (arith, relink-Distinct front v (lists k) d, remove-Distinct v (lists k) d)

pub unlink-Distinct :
    (v : ℕ) (lists : ℕ → List ℕ) (k : ℕ) → Distinct (lists k) → Distinct (unlink v lists k)
unfolding unlink
unlink-Distinct v lists k d = remove-Distinct v (lists k) d

-- Relinking leaves the other lists as they are, if the link was not in them.
pub is_empty-relink_at :
    (front : Bool) (v at : ℕ) (lists : ℕ → List ℕ) (k : ℕ)
    → ((k == at) ≡ false → mem v (lists k) ≡ false)
    → is_empty (relink_at front v at lists k) ≡ (if k == at then false else is_empty (lists k))
unfolding relink_at
is_empty-relink_at front v at lists k h =
    ground (arith, relink_nonempty front v (lists k), remove_absent v (lists k))

pub is_empty-unlink :
    (v : ℕ) (lists : ℕ → List ℕ) (k : ℕ)
    → mem v (lists k) ≡ false
    → is_empty (unlink v lists k) ≡ is_empty (lists k)
unfolding unlink
is_empty-unlink v lists k h = ground (arith, remove_absent v (lists k))

pub nonempty_of_unlink :
    (v : ℕ) (lists : ℕ → List ℕ) (k : ℕ)
    → is_empty (unlink v lists k) ≡ false
    → is_empty (lists k) ≡ false
unfolding unlink
nonempty_of_unlink v lists k h = is_empty-remove v (lists k) h

pub nonempty_of_relink_at :
    (front : Bool) (v at : ℕ) (lists : ℕ → List ℕ) (k : ℕ)
    → (k == at) ≡ false
    → is_empty (relink_at front v at lists k) ≡ false
    → is_empty (lists k) ≡ false
unfolding relink_at
nonempty_of_relink_at front v at lists k other h = ground (arith, is_empty-remove v (lists k))

-- A list with an element that is in no other list than a list that is empty.
pub is_empty-subset :
    (xs ys : List ℕ)
    → ((u : ℕ) → mem u xs ≡ true → mem u ys ≡ true)
    → is_empty ys ≡ true
    → is_empty xs ≡ true
unfolding mem
is_empty-subset [] ys sub e = refl
is_empty-subset (x ∷ xs) [] sub e = sub x (ground arith)
is_empty-subset (x ∷ xs) (y ∷ ys) sub e = e
