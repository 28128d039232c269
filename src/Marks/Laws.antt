-- ===== src/Marks/Laws.antt =====
-- mark.c: a mark and the view that it is at know of each other.
use hikari_sakura.Prelude.{
  ℕ, ◌+◌, ◌-◌, ◌<◌, Bool, true, false, not, ◌&&◌, ◌==◌, leb, if◌then◌else◌, Option, none, some, ◌≡◌,
  refl, ap, sym, ◌∙◌, arith, ◌⊎◌, inl, inr, Option-cases,
}
use hikari_sakura.Marks.{Marks, point, clear_view, mark_clear, clear_mark_of, mark_set, mark_get}

-- Whether a pointer is at an object.
abbrev pub is_at : Option ℕ → ℕ → Bool
is_at none b = false
is_at (some a) b = a == b

-- A mark is at a view exactly if the view has the mark.
abbrev pub IsPaired : Marks → Type 0
IsPaired s = (mark view : ℕ) → is_at (s.view_of mark) view ≡ is_at (s.mark_of view) mark

unique : (p : Option ℕ) (a b : ℕ) → is_at p a ≡ true → is_at p b ≡ (a == b)
unique none a b h = absurd (ground arith)
unique (some c) a b h = ground arith

is_at-point :
    (f : ℕ → Option ℕ) (a b c : ℕ) (p : Option ℕ)
    → is_at (point f a p b) c ≡ (if b == a then is_at p c else is_at (f b) c)
is_at-point f a b c p = ground arith

self : (w : ℕ) → (w == w) ≡ true
self w = ground arith

mark_clear-none : (mark : ℕ) (s : Marks) → s.view_of mark ≡ none → mark_clear mark s ≡ s
unfolding mark_clear clear_view
mark_clear-none mark s e = rw e refl

mark_clear-some :
    (mark w : ℕ) (s : Marks)
    → s.view_of mark ≡ some w
    → mark_clear mark s
      ≡ record { view_of = point s.view_of mark none; mark_of = point s.mark_of w none }
unfolding mark_clear clear_view
mark_clear-some mark w s e = rw e refl

-- Clearing a mark keeps marks and views paired, and the mark is at no view afterwards.
pub mark_clear-IsPaired :
    (mark : ℕ) (s : Marks)
    → IsPaired s
    → IsPaired (mark_clear mark s) × ((mark_clear mark s).view_of mark ≡ none)
mark_clear-IsPaired mark s paired = elim (Option-cases (s.view_of mark)) [
  | inl e ↦ (λ m v. rw (mark_clear-none mark s e) (paired m v), rw (mark_clear-none mark s e) e)
  | inr (w, e) ↦
      let marked : is_at (s.mark_of w) mark ≡ true = sym (paired mark w) ∙ rw e (self w) in
      let at : (v : ℕ) → is_at (s.mark_of v) mark ≡ (w == v) =
        λ v. sym (paired mark v) ∙ rw e refl in
      (
        λ m v. rw (mark_clear-some mark w s e) (
            ground (
              arith,
              paired m v,
              at v,
              unique (s.mark_of w) mark m marked,
              paired m w,
              is_at-point s.view_of mark m v none,
              is_at-point s.mark_of w v m none,
            )),
        rw (mark_clear-some mark w s e, self mark) refl,
      )
]

mark_clear_shrinks :
    (mark v m : ℕ) (s : Marks)
    → (is_at ((mark_clear mark s).mark_of v) m && not (is_at (s.mark_of v) m)) ≡ false
mark_clear_shrinks mark v m s = elim (Option-cases (s.view_of mark)) [
  | inl e ↦ rw (mark_clear-none mark s e) (ground arith)
  | inr (w, e) ↦ rw (mark_clear-some mark w s e) (ground (arith, is_at-point s.mark_of w v m none))
]

clear_mark_of-IsPaired :
    (view : ℕ) (s : Marks)
    → IsPaired s
    → let q = clear_mark_of (s.mark_of view) s in
      IsPaired q × ((mark : ℕ) → is_at (q.mark_of view) mark ≡ false)
unfolding clear_mark_of
clear_mark_of-IsPaired view s paired = elim (Option-cases (s.mark_of view)) [
  | inl e ↦ rw e (paired, λ mark. rw e refl)
  | inr (n, e) ↦
      let q = mark_clear-IsPaired n s paired in
      let own : (mark : ℕ) → is_at (s.mark_of view) mark ≡ (n == mark) = λ mark. rw e refl in
      let gone : is_at ((mark_clear n s).mark_of view) n ≡ false =
        sym (q.0 n view) ∙ ap (λ p. is_at p view) q.1 in
      rw e (q.0, λ mark. ground (arith, mark_clear_shrinks n view mark s, own mark, gone))
]

still_unmarked :
    (mark view : ℕ) (s : Marks)
    → IsPaired s
    → ((n : ℕ) → is_at (s.mark_of view) n ≡ false)
    → (n : ℕ) → is_at ((mark_clear mark s).mark_of view) n ≡ false
still_unmarked mark view s paired no_mark n =
    ground (arith, mark_clear_shrinks mark view n s, no_mark n)

-- Setting a mark to a view keeps marks and views paired, whatever either had before, and pairs the
-- two.
pub mark_set-IsPaired :
    (mark view : ℕ) (s : Marks)
    → IsPaired s
    → IsPaired (mark_set mark view s)
      × ((mark_set mark view s).view_of mark ≡ some view)
      × ((mark_set mark view s).mark_of view ≡ some mark)
unfolding mark_set
mark_set-IsPaired mark view s paired =
    let first = clear_mark_of-IsPaired view s paired in
    let cleared = mark_clear-IsPaired mark (clear_mark_of (s.mark_of view) s) first.0 in
    let q = mark_clear mark (clear_mark_of (s.mark_of view) s) in
    let unmarked = still_unmarked mark view (clear_mark_of (s.mark_of view) s) first.0 first.1 in
    let free : (v : ℕ) → is_at (q.view_of mark) v ≡ false = λ v. ap (λ p. is_at p v) cleared.1 in
    (
      λ m v. ground (
        arith,
        is_at-point q.view_of mark m v (some view),
        is_at-point q.mark_of view v m (some mark),
        cleared.0 m v,
        unmarked m,
        free v,
      ),
      rw (self mark) refl,
      rw (self view) refl,
    )

-- The letters from `a` to `z` name the 26 marks, and no other byte names one.
pub mark_get_lem :
    (reg : ℕ)
    → ((mark_get reg ≡ none) × ((reg < 97) ⊎ (122 < reg)))
      ⊎ ((nr : ℕ) × (mark_get reg ≡ some nr) × (nr < 26) × (reg ≡ 97 + nr))
unfolding mark_get
mark_get_lem reg = elim (letter reg) [
  | inl (e, h) ↦ inl (rw e refl, h)
  | inr (e, h, k) ↦ inr (reg - 97, rw e refl, h, k)
]
  where
    letter :
        (n : ℕ)
        → (((leb 97 n && leb n 122) ≡ false) × ((n < 97) ⊎ (122 < n)))
          ⊎ (((leb 97 n && leb n 122) ≡ true) × (n - 97 < 26) × (n ≡ 97 + (n - 97)))
    letter n = ground arith
