-- ===== src/Layout/Takes.antt =====
-- What a layout owes the views of a sheet: it tiles the next ones, in their order, each once, and
-- returns the one that comes after them.
use hikari_sakura.Prelude.{
  ℕ, ◌+◌, Bool, true, false, not, ◌&&◌, [], ◌∷◌, ◌++◌, Option, none, some, ◌≡◌, refl, ap, sym, ◌∙◌,
  arith, take, drop, take-add, drop-add, inl, inr,
}
use mathlib.Core.List.{append_assoc, append-nil}
use hikari_sakura.Stacking.Links.{mem, Distinct}
use hikari_sakura.Geometry.{Box}
use hikari_sakura.Layout.Plan.{Plan, Outcome, done, after, scan_next_tileable_view, tile}
use hikari_sakura.Layout.Scan.{
  select, remaining, tiled, tiled-append, mem-after, after-after, not_after, select-update,
  first_tileable_lem,
}

-- The view at which a layout stands is tileable and on the sheet, whose views are linked once.
abbrev pub Stands : Option ℕ → Plan → Type 0
Stands none p = Unit {0}
Stands (some v) p = (mem v p.views ≡ true) × (p.tileable v ≡ true)

-- What is tileable in one plan is tileable in another.
abbrev pub NoMore : Plan → Plan → Type 0
NoMore q p = (u : ℕ) → (q.tileable u && not (p.tileable u)) ≡ false

-- The views of the sheet that are tileable are not hidden.
abbrev pub Shown : Plan → Type 0
Shown p = (u : ℕ) → (mem u p.views && p.tileable u && p.hidden u) ≡ false

pub record Takes (k : ℕ) (p : Plan) (at : Option ℕ) (outcome : Outcome) : Type 0 where
  pub next : Option ℕ
  pub left : Plan
  pub returns : outcome ≡ done next left
  pub order : tiled left.tiles ≡ tiled p.tiles ++ take k (remaining p at)
  pub rest : remaining left next ≡ drop k (remaining p at)
  pub stands : Stands next left
  pub views : left.views ≡ p.views
  pub hidden : left.hidden ≡ p.hidden
  pub fewer : NoMore left p

-- Standing still.
pub Takes-none : (p : Plan) (at : Option ℕ) → Stands at p → Takes 0 p at (done at p)
Takes-none p at s = record {
  next = at;
  left = p;
  returns = refl;
  order = sym (append-nil (tiled p.tiles));
  rest = refl;
  stands = s;
  views = refl;
  hidden = refl;
  fewer = λ u. ground arith;
}

-- One stretch of a walk after another.
pub Takes-then :
    (j k : ℕ) (p q : Plan) (at from : Option ℕ) (outcome : Outcome)
    → (tiled q.tiles ≡ tiled p.tiles ++ take j (remaining p at))
    → (remaining q from ≡ drop j (remaining p at))
    → q.views ≡ p.views
    → q.hidden ≡ p.hidden
    → NoMore q p
    → Takes k q from outcome
    → Takes (j + k) p at outcome
Takes-then j k p q at from outcome o r vs hs fewer t = record {
  next = t.next;
  left = t.left;
  returns = t.returns;
  order = cc (
    t.order,
    o,
    r,
    take-add j k (remaining p at),
    append_assoc (tiled p.tiles) (take j (remaining p at)) (take k (drop j (remaining p at))),
  );
  rest = cc (t.rest, r, drop-add j k (remaining p at));
  stands = t.stands;
  views = t.views ∙ vs;
  hidden = t.hidden ∙ hs;
  fewer = λ u. ground (arith, t.fewer u, fewer u);
}

-- The views behind the one that a scan finds.
pub scan_rest :
    (v : ℕ) (q : Plan)
    → Distinct q.views
    → (remaining q (scan_next_tileable_view v q) ≡ select q.tileable (after v q.views))
      × Stands (scan_next_tileable_view v q) q
unfolding remaining scan_next_tileable_view
scan_rest v q once = elim (first_tileable_lem q.tileable (after v q.views)) [
  | inl (a, b) ↦ rw a (sym b, tt)
  | inr (w, a, b, c, e) ↦ rw a (
    ap (λ l. w ∷ select q.tileable l) (after-after w v q.views once b) ∙ sym e,
    (mem-after w v q.views b, c),
  )
]

-- One view is tiled, and the scan goes on behind it.
pub takes_one :
    (accepts : ℕ → Box → Bool) (v : ℕ) (b : Box) (p : Plan)
    → Distinct p.views
    → let q = tile accepts v b p in
      (tiled q.tiles ≡ tiled p.tiles ++ v ∷ [])
      × (remaining q (scan_next_tileable_view v q) ≡ select p.tileable (after v p.views))
      × Stands (scan_next_tileable_view v q) q
unfolding tile
takes_one accepts v b p once =
    let q = tile accepts v b p in
    let r = scan_rest v q once in
    (
      tiled-append p.tiles _,
      r.0 ∙ select-update p.tileable v _ (after v p.views) (not_after v p.views once),
      r.1,
    )
