-- ===== src/Workspace/Switching.antt =====
-- The switches of workspace.c that go round the ring of the sheets 1 to 9.
use hikari_sakura.Prelude.{
  suc, ◌+◌, ◌-◌, ◌*◌, ◌%◌, ◌<◌, ◌∙◌, sym, Bool-cases, inl, inr, ℕ, ◌≤◌, true, false, ◌==◌,
  if◌then◌else◌, Option, none, some, ◌≡◌, refl, ap, arith,
}
use hikari_sakura.Stacking.State.{Server, workspace_of, nr_of}
use hikari_sakura.Stacking.Links.{is_empty}
use hikari_sakura.Stacking.Pointer.{Hit, Sees}
use hikari_sakura.Stacking.Invariant.{Inv}
use hikari_sakura.Workspace.Sheets.{sheet_at, next, prev}
use hikari_sakura.Workspace.Cycling.{
  steps, Found, steps-next, steps-prev, next_inhabited_ends, prev_inhabited_ends,
  next_inhabited_hangs,
}
use hikari_sakura.Workspace.Displayed.{display_sheet-Inv, display_sheet_lem}
use hikari_sakura.Workspace.Display.{
  display_sheet, display_next, display_prev, switch_to_next, switch_to_prev, switch_to_found,
  switch_to_next_inhabited, switch_to_prev_inhabited,
}

-- Switching to the next sheet displays what `hikari_sheet_next` names, and nothing happens on
-- the sheet 0, which is not in the ring. This holds under the invariant.
pub switch_to_next_lem :
    (hit : Server → Hit) (w : ℕ) (s : Server)
    → Inv s
    → switch_to_next hit w s ≡ (if nr_of (s.sheet w) == 0 then s else display_next hit w s)
unfolding switch_to_next display_next next
switch_to_next_lem hit w s i =
    ap (λ k. if nr_of (s.sheet w) == 0 then s else display_sheet hit w k s)
      (ground (arith, (i.displays w).0))

-- Switching to the previous sheet displays what `hikari_sheet_prev` names, and nothing happens
-- on the sheet 0. This holds under the invariant.
pub switch_to_prev_lem :
    (hit : Server → Hit) (w : ℕ) (s : Server)
    → Inv s
    → switch_to_prev hit w s ≡ (if nr_of (s.sheet w) == 0 then s else display_prev hit w s)
unfolding switch_to_prev display_prev prev
switch_to_prev_lem hit w s i = elim (Bool-cases (nr_of (s.sheet w) == 0)) [
  | inl zeroth ↦ rw zeroth refl
  | inr other ↦ rw other (ap (λ k. display_sheet hit w k s) (ground (arith, (i.displays w).0)))
]

-- The sheets 1 to 9 in a ring: how far a sheet stands ahead of the displayed one, or behind it.
abbrev pub ahead : ℕ → Server → ℕ → ℕ
ahead w s k = sheet_at w (1 + (nr_of (s.sheet w) - 1 + k) % 9)

abbrev behind : ℕ → Server → ℕ → ℕ
behind w s k = sheet_at w (1 + (nr_of (s.sheet w) - 1 + 8 * k) % 9)

-- The outcome of a switch to an inhabited sheet: it ends, and the workspace displays the first sheet
-- in its direction that had views, after no more than nine steps; those between have none. If no
-- other sheet had views, it is the sheet that was displayed.
pub record Switched (w : ℕ) (s : Server) (nth : ℕ → ℕ) (result : Option Server) : Type 0 where
  pub after : Server
  pub ended : result ≡ some after
  pub kept : Inv after
  pub distance : ℕ
  pub near : distance ≤ 8
  pub lands : after.sheet w ≡ nth (suc distance)
  pub skipped : (j : ℕ) → j < distance → is_empty (s.sheet_views (nth (suc j))) ≡ true
  pub inhabited : is_empty (s.sheet_views (after.sheet w)) ≡ true → after.sheet w ≡ s.sheet w

switch_to_found-Switched :
    (hit : Server → Hit) (w : ℕ) (s : Server) (step nth : ℕ → ℕ) (result : Option ℕ)
    → Sees hit
    → Inv s
    → s.locked ≡ false
    → ((k : ℕ) → steps step k (s.sheet w) ≡ nth k)
    → ((k : ℕ) → workspace_of (nth k) ≡ w)
    → Found step s.sheet_views (s.sheet w) (s.sheet w) 8 result
    → Switched w s nth (switch_to_found hit w result s)
unfolding switch_to_found
switch_to_found-Switched hit w s step nth result sees i unlocked same own f =
    elim (Bool-cases (steps step (suc f.distance) (s.sheet w) == s.sheet w)) [
      | inl back ↦ record {
        after = s;
        ended = rw (f.found, back) refl;
        kept = i;
        distance = f.distance;
        near = f.near;
        lands = ground (arith, back, same (suc f.distance));
        skipped = passed;
        inhabited = λ h. refl;
      }
      | inr other ↦
          let there = steps step (suc f.distance) (s.sheet w) in
          let own' : workspace_of there ≡ w =
            ap workspace_of (same (suc f.distance)) ∙ own (suc f.distance) in
          let t = display_sheet_lem hit w there 0 s i unlocked own' in
          record {
            after = display_sheet hit w there s;
            ended = rw (f.found, other) refl;
            kept = display_sheet-Inv hit w there s sees i unlocked own';
            distance = f.distance;
            near = f.near;
            lands = t.1 ∙ same (suc f.distance);
            skipped = passed;
            inhabited = λ h. ground (arith, h, f.here, t.1, other);
          }
    ]
  where
    passed : (j : ℕ) → j < f.distance → is_empty (s.sheet_views (nth (suc j))) ≡ true
    passed j l =
        ap (λ k. is_empty (s.sheet_views k)) (sym (same (suc j))) ∙ ground (arith, f.not_before j l)

-- Where a workspace displays one of the sheets 1 to 9, the switch to the next inhabited sheet
-- ends within nine steps, and displays the first sheet ahead in the ring that had views; if no other
-- had any, the displayed sheet stays. It keeps the invariant. The screen is unlocked, and the refocus
-- meets visible views only.
pub switch_to_next_inhabited_ends :
    (hit : Server → Hit) (w : ℕ) (s : Server)
    → Sees hit
    → Inv s
    → s.locked ≡ false
    → 1 ≤ nr_of (s.sheet w)
    → Switched w s (ahead w s) (switch_to_next_inhabited hit 9 w s)
unfolding switch_to_next_inhabited
switch_to_next_inhabited_ends hit w s sees i unlocked h =
    switch_to_found-Switched hit w s next (ahead w s) _ sees i unlocked
      (λ k.
        steps-next k (s.sheet w) h
        ∙ ap (λ v. sheet_at v (1 + (nr_of (s.sheet w) - 1 + k) % 9)) (i.displays w).0)
      (λ k. omega arith) (next_inhabited_ends s.sheet_views (s.sheet w) h)

-- Where a workspace displays one of the sheets 1 to 9, the switch to the previous inhabited
-- sheet ends within nine steps, and displays the first sheet behind in the ring that had views; if no
-- other had any, the displayed sheet stays. It keeps the invariant. The screen is unlocked, and the
-- refocus meets visible views only.
pub switch_to_prev_inhabited_ends :
    (hit : Server → Hit) (w : ℕ) (s : Server)
    → Sees hit
    → Inv s
    → s.locked ≡ false
    → 1 ≤ nr_of (s.sheet w)
    → Switched w s (behind w s) (switch_to_prev_inhabited hit 9 w s)
unfolding switch_to_prev_inhabited
switch_to_prev_inhabited_ends hit w s sees i unlocked h =
    switch_to_found-Switched hit w s prev (behind w s) _ sees i unlocked
      (λ k.
        steps-prev k (s.sheet w) h
        ∙ ap (λ v. sheet_at v (1 + (nr_of (s.sheet w) - 1 + 8 * k) % 9)) (i.displays w).0)
      (λ k. omega arith) (prev_inhabited_ends s.sheet_views (s.sheet w) h)

-- Where a workspace displays its sheet 0 and its other sheets have no views, no amount of fuel
-- lets either switch to an inhabited sheet end: the code loops for ever.
pub switch_to_inhabited_hangs :
    (hit : Server → Hit) (w fuel : ℕ) (s : Server)
    → s.sheet w ≡ sheet_at w 0
    → ((nr : ℕ) → 1 ≤ nr → nr ≤ 9 → is_empty (s.sheet_views (sheet_at w nr)) ≡ true)
    → (switch_to_next_inhabited hit fuel w s ≡ none)
      × (switch_to_prev_inhabited hit fuel w s ≡ none)
unfolding switch_to_next_inhabited switch_to_prev_inhabited switch_to_found
switch_to_inhabited_hangs hit w fuel s zeroth none_there =
    let r = next_inhabited_hangs s.sheet_views w fuel none_there in
    rw (zeroth, r.0, r.1) (refl, refl)
