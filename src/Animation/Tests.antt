-- ===== src/Animation/Tests.antt =====
-- Runs of a view's motion on concrete inputs, with numbers of three decimals in place of `double`.
use hikari_sakura.Prelude.{
  true, false, not, List, [], ◌∷◌, ℤ, pos, ◌+ℤ◌, ◌-ℤ◌, ◌*ℤ◌, ◌/ℤ◌, ltb_ℤ, pos_part, eqb_ℤ, ◌≡◌,
  refl, arith,
}
use hikari_sakura.Animation.Motion.{
  DoubleMath, Moving, Scene, linear, MotionEvent, set_place, frame, output_moves, happen_all,
  tick_view, animation_offset,
}
use hikari_sakura.Animation.Landing.{course, happen_all-offset, HasLanded, tick_view_lands}

abbrev decimals : DoubleMath
decimals = record {
  Double = ℤ;
  of_int = λ n. n *ℤ pos 1000;
  to_int = λ a. a /ℤ 1000;
  plus = λ a b. a +ℤ b;
  minus = λ a b. a -ℤ b;
  times = λ a b. (a *ℤ b) /ℤ 1000;
  over = λ a b. (a *ℤ pos 1000) /ℤ pos_part b;
  is_less = λ a b. ltb_ℤ a b;
  is_at_least = λ a b. not (ltb_ℤ a b);
}

abbrev scene : Scene
scene = record {
  config = record { enabled = true; duration_msec = pos 120; easing = linear };
  is_hidden = false;
  in_lock_mode = false;
  in_move_mode = false;
  in_resize_mode = false;
}

-- The view is placed, sent to another place, and drawn half way; its output moves, and a frame later
-- the view is sent elsewhere and drawn again.
abbrev before : List MotionEvent
before =
    set_place scene 1000 (pos 100) (pos 50)
    ∷ set_place scene 2000 (pos 200) (pos 50)
    ∷ frame scene 2060
    ∷ output_moves (pos 0) (pos 1080)
    ∷ []

abbrev after : List MotionEvent
after = set_place scene 2070 (pos 400) (pos 90) ∷ frame scene 2090 ∷ []

happen_all-offset_example :
    let v = course decimals before scene 2070 after (pos 1920) (pos 0) in
    (v.geometry_x +ℤ (animation_offset v).0 +ℤ v.output_x ≡ v.node_x)
    × (v.geometry_y +ℤ (animation_offset v).1 +ℤ v.output_y ≡ v.node_y)
unfolding happen_all ltb_ℤ eqb_ℤ ◌/ℤ◌ ◌*ℤ◌
happen_all-offset_example =
    happen_all-offset decimals before scene 2070 after (pos 1920) (pos 0) tt refl

-- A view in motion since six milliseconds before the clock wraps around.
abbrev flying : Moving
flying = record {
  geometry_x = pos 300;
  geometry_y = pos 40;
  animation = record {
    active = true;
    placed = true;
    from_x = pos 0;
    from_y = pos 0;
    to_x = pos 300;
    to_y = pos 40;
    drawn_x = pos 10;
    drawn_y = pos 1;
    start_msec = 4294967290;
  };
  has_node = true;
  node_x = pos 1930;
  node_y = pos 1;
  has_output = true;
  output_x = pos 1920;
  output_y = pos 0;
}

tick_view_lands_example : HasLanded flying (tick_view decimals scene 114 flying)
unfolding ltb_ℤ ◌*ℤ◌
tick_view_lands_example =
    tick_view_lands decimals scene flying 4294967290 120 refl refl refl refl (omega arith) refl refl
