-- ===== src/Animation/Motion.antt =====
-- The state of a view's motion, and the functions of animation.c on it. Milliseconds are numbers
-- below 2 ^ 32. What C's `double` does is an interface.
use hikari_sakura.Prelude.{
  ℕ, ◌+◌, ◌-◌, ◌%◌, ◌^◌, Bool, true, false, not, ◌&&◌, ◌||◌, if◌then◌else◌, List, [], ◌∷◌, ℤ, pos,
  negsuc, ◌+ℤ◌, ◌-ℤ◌, ltb_ℤ, eqb_ℤ,
}

-- The arithmetic of `ease` and `progress`: a conversion from `int` and back, which truncates, and the
-- operations on `double`.
pub record DoubleMath : Type 1 where
  pub Double : Type 0
  pub of_int : ℤ → Double
  pub to_int : Double → ℤ
  pub plus : Double → Double → Double
  pub minus : Double → Double → Double
  pub times : Double → Double → Double
  pub over : Double → Double → Double
  pub is_less : Double → Double → Bool
  pub is_at_least : Double → Double → Bool

pub data Easing : Type 0 where
  linear ease_out ease_in_out : Easing

pub record AnimationConfig : Type 0 where
  pub enabled : Bool
  pub duration_msec : ℤ
  pub easing : Easing

pub record Animation : Type 0 where
  pub active : Bool
  pub placed : Bool
  pub from_x : ℤ
  pub from_y : ℤ
  pub to_x : ℤ
  pub to_y : ℤ
  pub drawn_x : ℤ
  pub drawn_y : ℤ
  pub start_msec : ℕ

-- A view with the place of its geometry, and with its node and the origin of its output, if it has
-- them.
pub record Moving : Type 0 where
  pub animation : Animation
  pub geometry_x : ℤ
  pub geometry_y : ℤ
  pub has_node : Bool
  pub node_x : ℤ
  pub node_y : ℤ
  pub has_output : Bool
  pub output_x : ℤ
  pub output_y : ℤ

-- What is asked of the rest of the program.
pub record Scene : Type 0 where
  pub config : AnimationConfig
  pub is_hidden : Bool
  pub in_lock_mode : Bool
  pub in_move_mode : Bool
  pub in_resize_mode : Bool

abbrev pub init_state : Animation
init_state = record {
  active = false;
  placed = false;
  from_x = pos 0;
  from_y = pos 0;
  to_x = pos 0;
  to_y = pos 0;
  drawn_x = pos 0;
  drawn_y = pos 0;
  start_msec = 0;
}

-- `wlr_scene_node_set_position`, with the origin of the output added.
unfoldable pub set_position : ℤ → ℤ → Moving → Moving
set_position x y v = record v { node_x = x +ℤ v.output_x; node_y = y +ℤ v.output_y }

unfoldable pub may_animate : Scene → Moving → Bool
may_animate s v =
    s.config.enabled
    && ltb_ℤ (pos 0) s.config.duration_msec
    && v.animation.placed
    && v.has_node
    && v.has_output
    && not s.is_hidden
    && not s.in_lock_mode
    && not s.in_move_mode
    && not s.in_resize_mode

-- The move is to be applied at once.
abbrev snapped : ℤ → ℤ → Animation → Animation
snapped x y a = record a {
  active = false;
  placed = true;
  from_x = x;
  from_y = y;
  to_x = x;
  to_y = y;
  drawn_x = x;
  drawn_y = y;
}

abbrev retargeted : ℕ → ℤ → ℤ → Animation → Animation
retargeted now x y a = record a {
  from_x = a.drawn_x;
  from_y = a.drawn_y;
  to_x = x;
  to_y = y;
  start_msec = now;
  active = true;
}

-- `hikari_animation_move` at a time: the view, and whether the node is left to the ticks.
unfoldable pub animation_move : Scene → ℕ → ℤ → ℤ → Moving → Moving × Bool
unfolding may_animate
animation_move s now x y v =
    let a = v.animation in
    if not (may_animate s v)
    then (record v { animation = snapped x y a }, false)
    else if not a.active && eqb_ℤ a.to_x x && eqb_ℤ a.to_y y
    then (v, false)
    else (record v { animation = retargeted now x y a }, true)

-- What `hikari_view_refresh_geometry` does with a place: the geometry has it at once, and the node if
-- it is not left to the ticks.
unfoldable pub place_node : Scene → ℕ → ℤ → ℤ → Moving → Moving
unfolding animation_move set_position
place_node s now x y v =
    let w = record v { geometry_x = x; geometry_y = y } in
    let moved = animation_move s now x y w in
    if v.has_node && v.has_output
    then (if moved.1 then moved.0 else set_position x y moved.0)
    else w

-- `hikari_animation_offset`.
unfoldable pub animation_offset : Moving → ℤ × ℤ
animation_offset v =
    let a = v.animation in
    if a.active then (a.drawn_x -ℤ a.to_x, a.drawn_y -ℤ a.to_y) else (pos 0, pos 0)

-- A node that is placed, and the record of it.
unfoldable pub draw : ℤ → ℤ → Moving → Moving
unfolding set_position
draw x y v =
    set_position x y (record v { animation = record (v.animation) { drawn_x = x; drawn_y = y } })

-- `hikari_animation_cancel`.
unfoldable pub animation_cancel : Moving → Moving
unfolding draw
animation_cancel v =
    let stopped = record v { animation = record (v.animation) { active = false } } in
    if not v.animation.active
    then v
    else if v.has_node && v.has_output
    then draw v.animation.to_x v.animation.to_y stopped
    else stopped

-- An unsigned difference of 32 bits.
unfoldable pub elapsed : ℕ → ℕ → ℕ
elapsed now start = (now + 2 ^ 32 - start) % 2 ^ 32

module _ (D : DoubleMath) where
  open D use {Double, of_int, to_int, plus, minus, times, over, is_less, is_at_least}

  abbrev pub one : Double
  one = of_int (pos 1)

  ease : Easing → Double → Double
  ease linear t = t
  ease ease_out t = let inv = minus one t in minus one (times (times inv inv) inv)
  ease ease_in_out t =
      let inv = plus (times (of_int (negsuc 1)) t) (of_int (pos 2)) in
      if is_less t (over one (of_int (pos 2)))
      then times (times (times (of_int (pos 4)) t) t) t
      else minus one (over (times (times inv inv) inv) (of_int (pos 2)))

  unfoldable pub progress : Scene → ℕ → Animation → Double
  unfolding elapsed
  progress s now a =
      if not (ltb_ℤ (pos 0) s.config.duration_msec)
      then one
      else if not (ltb_ℤ (pos (elapsed now a.start_msec)) s.config.duration_msec)
      then one
      else over (of_int (pos (elapsed now a.start_msec))) (of_int s.config.duration_msec)

  along : ℤ → ℤ → Double → ℤ
  along from_at to_at t = from_at +ℤ to_int (times (of_int (to_at -ℤ from_at)) t)

  pub current_position : Scene → ℕ → Animation → ℤ × ℤ
  unfolding ease progress along
  current_position s now a =
      let t = ease s.config.easing (progress s now a) in
      if not a.active then (a.to_x, a.to_y) else (along a.from_x a.to_x t, along a.from_y a.to_y t)

  -- One view of `hikari_animation_tick`, and whether it is still running.
  unfoldable pub tick_view : Scene → ℕ → Moving → Moving × Bool
  unfolding current_position progress may_animate animation_cancel draw
  tick_view s now v =
      let a = v.animation in
      let at = current_position s now a in
      if not a.active
      then (v, false)
      else if not v.has_node || not (may_animate s v)
      then (animation_cancel v, false)
      else if is_at_least (progress s now a) one
      then (draw a.to_x a.to_y (record v { animation = record a { active = false } }), false)
      else (draw at.0 at.1 v, true)

-- What the change of the outputs' layout does to a view: the output has another origin, and the node
-- is placed at the geometry, whether the view is moving or not.
unfoldable pub relayout : ℤ → ℤ → Moving → Moving
unfolding set_position
relayout ox oy v =
    let w = record v { output_x = ox; output_y = oy } in
    if v.has_node then set_position v.geometry_x v.geometry_y w else w

-- The change to another output, as `migrate_view` and `hikari_view_evacuate` make it: the motion is
-- cut short on the old output, and its record is initialized.
unfoldable pub change_output : ℤ → ℤ → Moving → Moving
unfolding animation_cancel
change_output ox oy v = record (animation_cancel v) {
  has_output = true;
  output_x = ox;
  output_y = oy;
  animation = init_state;
}

-- What happens to a view: a place that view.c gives it, a frame of its output, a motion that is cut
-- short, an output that is moved, and a change to another output.
pub data MotionEvent : Type 0 where
  set_place : Scene → ℕ → ℤ → ℤ → MotionEvent
  frame : Scene → ℕ → MotionEvent
  stop : MotionEvent
  output_moves : ℤ → ℤ → MotionEvent
  changes_output : ℤ → ℤ → MotionEvent

module _ (D : DoubleMath) where
  unfoldable pub happen : MotionEvent → Moving → Moving
  unfolding tick_view place_node animation_cancel relayout change_output
  happen (set_place s now x y) v = place_node s now x y v
  happen (frame s now) v = (tick_view D s now v).0
  happen stop v = animation_cancel v
  happen (output_moves ox oy) v = relayout ox oy v
  happen (changes_output ox oy) v = change_output ox oy v

  unfoldable pub happen_all : List MotionEvent → Moving → Moving
  unfolding happen
  happen_all [] v = v
  happen_all (e ∷ es) v = happen_all es (happen e v)
