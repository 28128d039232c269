-- ===== src/Animation/Landing.antt =====
-- Where the motion of a view leaves its node: after any course of events, and when its time is over.
use hikari_sakura.Prelude.{
  ℕ, ◌+◌, ◌%◌, ◌^◌, ◌<◌, Bool, true, false, not, ◌&&◌, ◌||◌, if_elim, List, ℤ, pos, ◌+ℤ◌, ltb_ℤ,
  ◌≡◌, refl, ap, ◌∙◌, arith,
}
use hikari_sakura.Animation.Motion.{
  DoubleMath, Moving, Scene, may_animate, animation_offset, draw, set_position, animation_cancel,
  init_state, elapsed, progress, tick_view, one, MotionEvent, happen_all,
}
use hikari_sakura.Animation.Ticking.{
  IsDrawn, Stays, offset_lem, tick_view-IsDrawn, happen_all-IsDrawn, happen_all_exact,
}

-- A view whose motion has only been initialized, on an output at a place.
abbrev pub fresh : ℤ → ℤ → Moving
fresh ox oy = record {
  animation = init_state;
  geometry_x = pos 0;
  geometry_y = pos 0;
  has_node = true;
  node_x = pos 0;
  node_y = pos 0;
  has_output = true;
  output_x = ox;
  output_y = oy;
}

fresh-IsDrawn : (ox oy : ℤ) → IsDrawn false (fresh ox oy)
fresh-IsDrawn ox oy = record {
  has_node = refl;
  has_output = refl;
  belongs = λ p. absurd (ground (arith, p));
  resting = λ a p. absurd (ground (arith, p));
  started = λ a. absurd (ground (arith, a));
  shown = λ e p. absurd (ground (arith, p));
}

-- A number of milliseconds below 2 ^ 32 that have gone by, whatever the clock was.
elapsed_lem : (a t : ℕ) → t < 2 ^ 32 → elapsed ((a + t) % 2 ^ 32) (a % 2 ^ 32) ≡ t
unfolding elapsed
elapsed_lem a t h = omega arith

-- A view that has landed at the end of its motion.
abbrev pub HasLanded : Moving → Moving × Bool → Type 0
HasLanded v r =
    (r.1 ≡ false)
    × (r.0.animation.active ≡ false)
    × (r.0.node_x ≡ v.animation.to_x +ℤ v.output_x)
    × (r.0.node_y ≡ v.animation.to_y +ℤ v.output_y)

module _ (D : DoubleMath) where
  open D use {is_at_least}

  -- The course of a view: what happens to it until a frame of its output, and what happens then.
  abbrev pub course : List MotionEvent → Scene → ℕ → List MotionEvent → ℤ → ℤ → Moving
  course before s now after ox oy =
      happen_all D after (tick_view D s now (happen_all D before (fresh ox oy))).0

  -- From a view that is initialized on an output, whatever places, frames and cancellations there are,
  -- and whatever outputs it is moved to and where its output is moved: after a frame, and until its
  -- output is moved again, once the view is placed its node stands where it belongs, moved by
  -- `animation_offset` and by the origin of the output.
  pub happen_all-offset :
      (before : List MotionEvent) (s : Scene) (now : ℕ) (after : List MotionEvent) (ox oy : ℤ)
      → Stays after
      → let v = course before s now after ox oy in
        v.animation.placed ≡ true
        → (v.geometry_x +ℤ (animation_offset v).0 +ℤ v.output_x ≡ v.node_x)
          × (v.geometry_y +ℤ (animation_offset v).1 +ℤ v.output_y ≡ v.node_y)
  happen_all-offset before s now after ox oy stays p =
      let u = happen_all D before (fresh ox oy) in
      let i = happen_all_exact D after (tick_view D s now u).0 stays (
        tick_view-IsDrawn D false s now u
          (happen_all-IsDrawn D before (fresh ox oy) (fresh-IsDrawn ox oy))) in
      let at = offset_lem (course before s now after ox oy) i p in
      (
        ap
              (λ z.
                z
                +ℤ (animation_offset (course before s now after ox oy)).0
                +ℤ (course before s now after ox oy).output_x)
              (i.belongs p).0
            ∙ at.0,
        ap
              (λ z.
                z
                +ℤ (animation_offset (course before s now after ox oy)).1
                +ℤ (course before s now after ox oy).output_y)
              (i.belongs p).1
            ∙ at.1,
      )

  progress_over :
      (s : Scene) (v : Moving) (a t : ℕ)
      → t < 2 ^ 32
      → v.animation.start_msec ≡ a % 2 ^ 32
      → ltb_ℤ (pos t) s.config.duration_msec ≡ false
      → progress D s ((a + t) % 2 ^ 32) v.animation ≡ one D
  unfolding progress
  progress_over s v a t small started late =
      if_elim (λ r. r ≡ one D) (not (ltb_ℤ (pos 0) s.config.duration_msec)) (λ _. refl)
        (λ _.
          if_elim (λ r. r ≡ one D) (not (ltb_ℤ (pos gone) s.config.duration_msec)) (λ _. refl)
            (λ early. absurd (ground (arith, early, is_late))))
    where
      gone : ℕ
      gone = elapsed ((a + t) % 2 ^ 32) v.animation.start_msec

      is_late : ltb_ℤ (pos gone) s.config.duration_msec ≡ false
      is_late =
          ap (λ n. ltb_ℤ (pos n) s.config.duration_msec)
            (ap (elapsed ((a + t) % 2 ^ 32)) started ∙ elapsed_lem a t small)
          ∙ late

  animation_cancel_lands :
      (v : Moving)
      → v.has_node ≡ true
      → v.has_output ≡ true
      → v.animation.active ≡ true
      → HasLanded v (animation_cancel v, false)
  unfolding animation_cancel draw set_position
  animation_cancel_lands v node output moves =
      if_elim (λ w. HasLanded v (w, false)) (not v.animation.active)
        (λ still. absurd (ground (arith, moves, still)))
        (λ _.
          if_elim (λ w. HasLanded v (w, false)) (v.has_node && v.has_output)
            (λ _. (refl, refl, refl, refl)) (λ lost. absurd (ground (arith, lost, node, output))))

  -- What a frame does to a view in motion when the time of the motion is over: the motion ends, and the
  -- node is where the motion was to, even if the clock of 32 bits has wrapped around since. The frame
  -- comes before the clock has gone all the way round, the view has a node on an output, and 1 is at
  -- least 1.
  pub tick_view_lands :
      (s : Scene) (v : Moving) (a t : ℕ)
      → is_at_least (one D) (one D) ≡ true
      → v.has_node ≡ true
      → v.has_output ≡ true
      → v.animation.active ≡ true
      → t < 2 ^ 32
      → v.animation.start_msec ≡ a % 2 ^ 32
      → ltb_ℤ (pos t) s.config.duration_msec ≡ false
      → HasLanded v (tick_view D s ((a + t) % 2 ^ 32) v)
  unfolding tick_view animation_cancel draw set_position
  tick_view_lands s v a t whole node output moves small started late =
      let now = (a + t) % 2 ^ 32 in
      if_elim (HasLanded v) (not v.animation.active)
        (λ still. absurd (ground (arith, moves, still)))
        (λ _.
          if_elim (HasLanded v) (not v.has_node || not (may_animate s v))
            (λ _. animation_cancel_lands v node output moves)
            (λ _.
              if_elim (HasLanded v) (is_at_least (progress D s now v.animation) (one D))
                (λ _. (refl, refl, refl, refl))
                (λ early. absurd (
                  ground (
                    arith,
                    early,
                    ap (λ r. is_at_least r (one D)) (progress_over s v a t small started late),
                    whole,
                  )))))
