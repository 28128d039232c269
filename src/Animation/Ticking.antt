-- ===== src/Animation/Ticking.antt =====
-- Where a moving view is drawn, and that its motion ends.
use hikari_sakura.Prelude.{
  ℕ, Bool, true, false, not, ◌&&◌, ◌||◌, if◌then◌else◌, if_elim, List, [], ◌∷◌, ℤ, pos, ◌+ℤ◌, ◌-ℤ◌,
  eqb_ℤ, eqb_ℤ-cases, ◌≡◌, refl, ap, ◌∙◌, sym, arith, int_laws, inl, inr,
}
use hikari_sakura.Animation.Motion.{
  DoubleMath, Moving, Scene, set_position, may_animate, animation_move, place_node,
  animation_offset, draw, animation_cancel, progress, current_position, tick_view, one, MotionEvent,
  set_place, frame, stop, output_moves, changes_output, happen, relayout, change_output, init_state,
  happen_all,
}

-- A view that has a node on an output, where a motion that is over has come to its end and the view
-- belongs at its geometry. The record of the place of its node is true while it rests; and if it is
-- exact, also while it moves.
pub record IsDrawn (exact : Bool) (v : Moving) : Type 0 where
  pub has_node : v.has_node ≡ true
  pub has_output : v.has_output ≡ true
  pub belongs :
      v.animation.placed ≡ true
      → (v.geometry_x ≡ v.animation.to_x) × (v.geometry_y ≡ v.animation.to_y)
  pub resting :
      v.animation.active ≡ false
      → v.animation.placed ≡ true
      → (v.animation.drawn_x ≡ v.animation.to_x) × (v.animation.drawn_y ≡ v.animation.to_y)
  pub started : v.animation.active ≡ true → v.animation.placed ≡ true
  pub shown :
      exact || not v.animation.active ≡ true
      → v.animation.placed ≡ true
      → (v.node_x ≡ v.animation.drawn_x +ℤ v.output_x)
        × (v.node_y ≡ v.animation.drawn_y +ℤ v.output_y)

module _ (b : Bool) where
  -- A node that is drawn makes the record exact.
  draw-IsDrawn :
      (x y : ℤ) (v : Moving)
      → IsDrawn b v
      → (v.animation.active ≡ false → (x ≡ v.animation.to_x) × (y ≡ v.animation.to_y))
      → IsDrawn true (draw x y v)
  unfolding draw set_position
  draw-IsDrawn x y v i h = record {
    has_node = i.has_node;
    has_output = i.has_output;
    belongs = i.belongs;
    resting = λ a p. h a;
    started = i.started;
    shown = λ e p. (refl, refl);
  }

  -- A motion that is stopped, and is drawn at its end.
  stopped-IsDrawn :
      (v : Moving)
      → IsDrawn b v
      → IsDrawn true (
          draw v.animation.to_x v.animation.to_y
            (record v { animation = record (v.animation) { active = false } }))
  unfolding draw set_position
  stopped-IsDrawn v i = record {
    has_node = i.has_node;
    has_output = i.has_output;
    belongs = i.belongs;
    resting = λ a p. (refl, refl);
    started = λ a. absurd (ground (arith, a));
    shown = λ e p. (refl, refl);
  }

  -- A view at rest has an exact record.
  rest-IsDrawn : (v : Moving) → v.animation.active ≡ false → IsDrawn b v → IsDrawn true v
  rest-IsDrawn v still i = record {
    has_node = i.has_node;
    has_output = i.has_output;
    belongs = i.belongs;
    resting = i.resting;
    started = i.started;
    shown = λ e. i.shown (ground (arith, still));
  }

  animation_cancel-IsDrawn : (v : Moving) → IsDrawn b v → IsDrawn true (animation_cancel v)
  unfolding animation_cancel
  animation_cancel-IsDrawn v i =
      if_elim (IsDrawn true) (not v.animation.active)
        (λ still. rest-IsDrawn v (ground (arith, still)) i)
        (λ _.
          if_elim (IsDrawn true) (v.has_node && v.has_output) (λ _. stopped-IsDrawn v i)
            (λ gone. absurd (ground (arith, gone, i.has_node, i.has_output))))

may_animate-placed :
    (s : Scene) (v : Moving) → not (may_animate s v) ≡ false → v.animation.placed ≡ true
unfolding may_animate
may_animate-placed s v may = ground (arith, may)

eqb_ℤ-eq : (a b : ℤ) → eqb_ℤ a b ≡ true → a ≡ b
eqb_ℤ-eq a b h = elim (eqb_ℤ-cases a b) [ inl c ↦ c.1 | inr c ↦ absurd (ground (arith, h, c.0)) ]

module _ (b : Bool) where
  set_position-IsDrawn :
      (x y : ℤ) (v : Moving)
      → IsDrawn b v
      → not v.animation.active && eqb_ℤ v.animation.to_x x && eqb_ℤ v.animation.to_y y ≡ true
      → v.animation.placed ≡ true
      → IsDrawn b (set_position x y (record v { geometry_x = x; geometry_y = y }))
  unfolding set_position
  set_position-IsDrawn x y v i same p = record {
    has_node = i.has_node;
    has_output = i.has_output;
    belongs = λ _. (sym to_x, sym to_y);
    resting = i.resting;
    started = i.started;
    shown = λ _ _. (
      ap (λ z. z +ℤ v.output_x) (sym ((i.resting is_still p).0 ∙ to_x)),
      ap (λ z. z +ℤ v.output_y) (sym ((i.resting is_still p).1 ∙ to_y)),
    );
  }
    where
      is_still : v.animation.active ≡ false
      is_still = ground (arith, same)

      to_x : v.animation.to_x ≡ x
      to_x = eqb_ℤ-eq v.animation.to_x x (ground (arith, same))

      to_y : v.animation.to_y ≡ y
      to_y = eqb_ℤ-eq v.animation.to_y y (ground (arith, same))

  -- The view after a move, and before the node is placed.
  abbrev settled : ℤ → ℤ → Moving × Bool → Moving
  settled x y r = if r.1 then r.0 else set_position x y r.0

  animation_move-IsDrawn :
      (s : Scene) (now : ℕ) (x y : ℤ) (v : Moving)
      → IsDrawn b v
      → IsDrawn b
          (settled x y (animation_move s now x y (record v { geometry_x = x; geometry_y = y })))
  unfolding animation_move set_position may_animate
  animation_move-IsDrawn s now x y v i =
      if_elim (λ (r : Moving × Bool). IsDrawn b (settled x y r)) (not (may_animate s v))
        (λ _. record {
          has_node = i.has_node;
          has_output = i.has_output;
          belongs = λ _. (refl, refl);
          resting = λ a p. (refl, refl);
          started = λ a. absurd (ground (arith, a));
          shown = λ e p. (refl, refl);
        })
        (λ may.
          if_elim (λ (r : Moving × Bool). IsDrawn b (settled x y r))
            (not v.animation.active && eqb_ℤ v.animation.to_x x && eqb_ℤ v.animation.to_y y)
            (λ same. set_position-IsDrawn x y v i same (may_animate-placed s v may))
            (λ _. record {
              has_node = i.has_node;
              has_output = i.has_output;
              belongs = λ _. (refl, refl);
              resting = λ a. absurd (ground (arith, a));
              started = λ a. may_animate-placed s v may;
              shown = λ e. i.shown (ground (arith, e));
            }))

  place_node-IsDrawn :
      (s : Scene) (now : ℕ) (x y : ℤ) (v : Moving)
      → IsDrawn b v
      → IsDrawn b (place_node s now x y v)
  unfolding place_node
  place_node-IsDrawn s now x y v i =
      if_elim (IsDrawn b) (v.has_node && v.has_output) (λ _. animation_move-IsDrawn s now x y v i)
        (λ gone. absurd (ground (arith, gone, i.has_node, i.has_output)))

  -- An output that is moved while a view is in motion makes the record inexact.
  relayout-IsDrawn : (ox oy : ℤ) (v : Moving) → IsDrawn b v → IsDrawn false (relayout ox oy v)
  unfolding relayout set_position
  relayout-IsDrawn ox oy v i =
      if_elim (IsDrawn false) v.has_node
        (λ _. record {
          has_node = i.has_node;
          has_output = i.has_output;
          belongs = i.belongs;
          resting = i.resting;
          started = i.started;
          shown = λ e p.
              let still : v.animation.active ≡ false = ground (arith, e) in
              (
                ap (λ z. z +ℤ ox) ((i.belongs p).0 ∙ sym (i.resting still p).0),
                ap (λ z. z +ℤ oy) ((i.belongs p).1 ∙ sym (i.resting still p).1),
              );
        })
        (λ gone. absurd (ground (arith, gone, i.has_node)))

  unplaced-IsDrawn :
      (ox oy : ℤ) (v : Moving)
      → IsDrawn b v
      → IsDrawn true
          (record v { has_output = true; output_x = ox; output_y = oy; animation = init_state })
  unplaced-IsDrawn ox oy v i = record {
    has_node = i.has_node;
    has_output = refl;
    belongs = λ p. absurd (ground (arith, p));
    resting = λ a p. absurd (ground (arith, p));
    started = λ a. absurd (ground (arith, a));
    shown = λ e p. absurd (ground (arith, p));
  }

change_output-IsDrawn :
    (b : Bool) (ox oy : ℤ) (v : Moving) → IsDrawn b v → IsDrawn true (change_output ox oy v)
unfolding change_output
change_output-IsDrawn b ox oy v i =
    unplaced-IsDrawn true ox oy (animation_cancel v) (animation_cancel-IsDrawn b v i)

weaken : (b : Bool) (v : Moving) → IsDrawn true v → IsDrawn b v
weaken b v i = record {
  has_node = i.has_node;
  has_output = i.has_output;
  belongs = i.belongs;
  resting = i.resting;
  started = i.started;
  shown = λ e. i.shown refl;
}

-- No output is moved in some events.
abbrev pub Stays : List MotionEvent → Type 0
Stays [] = Unit
Stays (output_moves ox oy ∷ es) = ⊥
Stays (set_place s now x y ∷ es) = Stays es
Stays (frame s now ∷ es) = Stays es
Stays (stop ∷ es) = Stays es
Stays (changes_output ox oy ∷ es) = Stays es

module _ (D : DoubleMath) where
  open D use {is_at_least}

  pub tick_view-IsDrawn :
      (b : Bool) (s : Scene) (now : ℕ) (v : Moving)
      → IsDrawn b v
      → IsDrawn true (tick_view D s now v).0
  unfolding tick_view
  tick_view-IsDrawn b s now v i =
      if_elim (λ (r : Moving × Bool). IsDrawn true r.0) (not v.animation.active)
        (λ still. rest-IsDrawn b v (ground (arith, still)) i)
        (λ moves.
          if_elim (λ (r : Moving × Bool). IsDrawn true r.0)
            (not v.has_node || not (may_animate s v)) (λ _. animation_cancel-IsDrawn b v i)
            (λ _.
              if_elim (λ (r : Moving × Bool). IsDrawn true r.0)
                (is_at_least (progress D s now v.animation) (one D)) (λ _. stopped-IsDrawn b v i)
                (λ _.
                  draw-IsDrawn b (current_position D s now v.animation).0
                    (current_position D s now v.animation).1 v i
                    (λ still. absurd (ground (arith, moves, still))))))

  -- Whatever happens, the record is true of views at rest.
  pub happen_all-IsDrawn :
      (es : List MotionEvent) (v : Moving) → IsDrawn false v → IsDrawn false (happen_all D es v)
  unfolding happen_all happen
  happen_all-IsDrawn [] v i = i
  happen_all-IsDrawn (set_place s now x y ∷ es) v i =
      happen_all-IsDrawn es (place_node s now x y v) (place_node-IsDrawn false s now x y v i)
  happen_all-IsDrawn (frame s now ∷ es) v i =
      happen_all-IsDrawn es (tick_view D s now v).0
        (weaken false (tick_view D s now v).0 (tick_view-IsDrawn false s now v i))
  happen_all-IsDrawn (stop ∷ es) v i =
      happen_all-IsDrawn es (animation_cancel v)
        (weaken false (animation_cancel v) (animation_cancel-IsDrawn false v i))
  happen_all-IsDrawn (output_moves ox oy ∷ es) v i =
      happen_all-IsDrawn es (relayout ox oy v) (relayout-IsDrawn false ox oy v i)
  happen_all-IsDrawn (changes_output ox oy ∷ es) v i =
      happen_all-IsDrawn es (change_output ox oy v)
        (weaken false (change_output ox oy v) (change_output-IsDrawn false ox oy v i))

  -- A record that is exact stays so while no output is moved.
  pub happen_all_exact :
      (es : List MotionEvent) (v : Moving)
      → Stays es
      → IsDrawn true v
      → IsDrawn true (happen_all D es v)
  unfolding happen_all happen
  happen_all_exact [] v h i = i
  happen_all_exact (output_moves ox oy ∷ es) v h i = absurd h
  happen_all_exact (set_place s now x y ∷ es) v h i =
      happen_all_exact es (place_node s now x y v) h (place_node-IsDrawn true s now x y v i)
  happen_all_exact (frame s now ∷ es) v h i =
      happen_all_exact es (tick_view D s now v).0 h (tick_view-IsDrawn true s now v i)
  happen_all_exact (stop ∷ es) v h i =
      happen_all_exact es (animation_cancel v) h (animation_cancel-IsDrawn true v i)
  happen_all_exact (changes_output ox oy ∷ es) v h i =
      happen_all_exact es (change_output ox oy v) h (change_output-IsDrawn true ox oy v i)

shift_lem : (t d o n : ℤ) → n ≡ d +ℤ o → t +ℤ (d -ℤ t) +ℤ o ≡ n
shift_lem t d o n h = grind int_laws

unshifted_lem : (t d o n : ℤ) → d ≡ t → n ≡ d +ℤ o → t +ℤ pos 0 +ℤ o ≡ n
unshifted_lem t d o n at_end h = grind int_laws

pub offset_lem :
    (v : Moving)
    → IsDrawn true v
    → v.animation.placed ≡ true
    → (v.animation.to_x +ℤ (animation_offset v).0 +ℤ v.output_x ≡ v.node_x)
      × (v.animation.to_y +ℤ (animation_offset v).1 +ℤ v.output_y ≡ v.node_y)
unfolding animation_offset
offset_lem v i p =
    let a = v.animation in
    if_elim
      (λ (r : ℤ × ℤ).
        (a.to_x +ℤ r.0 +ℤ v.output_x ≡ v.node_x) × (a.to_y +ℤ r.1 +ℤ v.output_y ≡ v.node_y))
      a.active
      (λ _. (
        shift_lem a.to_x a.drawn_x v.output_x v.node_x (i.shown refl p).0,
        shift_lem a.to_y a.drawn_y v.output_y v.node_y (i.shown refl p).1,
      ))
      (λ still. (
        unshifted_lem a.to_x a.drawn_x v.output_x v.node_x (i.resting still p).0 (i.shown refl p).0,
        unshifted_lem a.to_y a.drawn_y v.output_y v.node_y (i.resting still p).1 (i.shown refl p).1,
      ))
