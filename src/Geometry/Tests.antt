-- ===== src/Geometry/Tests.antt =====
-- Boxes on a screen of 1920 by 1080 pixels, and the theorems of geometry.c at them.
use hikari_sakura.Prelude.{
  ℕ, ◌≤◌, ℤ, pos, negsuc, ◌+ℤ◌, ◌-ℤ◌, ◌*ℤ◌, ◌≤ℤ◌, ◌≡◌, ◌/ℤ◌, /ℤ_parts, arith, int_laws,
}
use hikari_sakura.Geometry.{Box, Margins, constrain_relative}
use hikari_sakura.Geometry.Bounds.{IsInside, Fits, Reaches, overlap, constrain_relative-Reaches}
use hikari_sakura.Geometry.Double.{DoubleArith, Laws}

abbrev screen : Box
screen = record { x = pos 0; y = pos 0; width = pos 1920; height = pos 1080 }

abbrev window : Box
window = record { x = pos 100; y = pos 50; width = pos 640; height = pos 480 }

abbrev margins : Margins
margins = record { gap = pos 5; border = pos 1 }

window-Fits : Fits (pos 1) window screen
unfolding ◌+ℤ◌
window-Fits = record { wide = omega arith; high = omega arith }

window-IsInside : IsInside (pos 1) window screen
unfolding ◌+ℤ◌
window-IsInside = record {
  left = omega arith;
  right = omega arith;
  top = omega arith;
  bottom = omega arith;
}

window-Reaches : Reaches (overlap margins) window screen
unfolding ◌+ℤ◌ ◌-ℤ◌ ◌*ℤ◌
window-Reaches = record {
  from_left = omega arith;
  from_right = omega arith;
  from_top = omega arith;
  from_bottom = omega arith;
}

overlap_wide : overlap margins +ℤ overlap margins ≤ℤ pos 640 +ℤ pos 1920
unfolding ◌+ℤ◌ ◌-ℤ◌ ◌*ℤ◌
overlap_wide = omega arith

overlap_high : overlap margins +ℤ overlap margins ≤ℤ pos 480 +ℤ pos 1080
unfolding ◌+ℤ◌ ◌-ℤ◌ ◌*ℤ◌
overlap_high = omega arith

constrain_relative-Reaches_example :
    let b = constrain_relative margins window screen (negsuc 9999) (pos 5000) in
    Reaches (overlap margins) b screen × (b.width ≡ pos 640) × (b.height ≡ pos 480)
constrain_relative-Reaches_example =
    constrain_relative-Reaches margins window screen (negsuc 9999) (pos 5000) overlap_wide
      overlap_high

-- A window that sticks out on the left, and one that sticks out on both sides.
abbrev left_out : Box
left_out = record { x = negsuc 99; y = pos 50; width = pos 640; height = pos 480 }

abbrev both_out : Box
both_out = record { x = negsuc 99; y = pos 50; width = pos 3000; height = pos 480 }

-- The scales 0.0, 0.5 and 1.0.
data Scale : Type 0 where
  nothing half whole : Scale

abbrev rank : Scale → ℕ
rank nothing = 0
rank half = 1
rank whole = 2

abbrev scaled : ℤ → Scale → ℤ
scaled n nothing = pos 0
scaled n half = n /ℤ 2
scaled n whole = n

abbrev halves : DoubleArith
halves = record {
  Double = Scale;
  int_of_product = scaled;
  one_minus = λ s. elim s [ nothing ↦ whole | half ↦ half | whole ↦ nothing ];
  AtMost = λ a b. rank a ≤ rank b;
  zero_scale = nothing;
  one_scale = whole;
}

halves-mono : (n : ℤ) (a b : Scale) → pos 0 ≤ℤ n → rank a ≤ rank b → scaled n a ≤ℤ scaled n b
halves-mono n nothing nothing h k = omega arith
halves-mono n nothing half h k = grind (int_laws, /ℤ_parts n 2)
halves-mono n nothing whole h k = h
halves-mono n half nothing h k = absurd (omega arith)
halves-mono n half half h k = omega arith
halves-mono n half whole h k = grind (int_laws, /ℤ_parts n 2)
halves-mono n whole nothing h k = absurd (omega arith)
halves-mono n whole half h k = absurd (omega arith)
halves-mono n whole whole h k = omega arith

halves-Laws : Laws halves
halves-Laws = record {
  mono = halves-mono;
  times_zero_lower = λ n. omega arith;
  times_one_upper = λ n. omega arith;
}
