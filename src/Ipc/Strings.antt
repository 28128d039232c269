-- ===== src/Ipc/Strings.antt =====
-- The functions of the C library that ipc.c reads and writes its lines with. A byte is a number
-- below 256, and a string is given without its terminator.
use Prim.Native.Char.{code}
use Prim.Native.String.{String}
use hikari_sakura.Prelude.{
  ℕ, zero, suc, ◌+◌, ◌-◌, ◌*◌, ◌/◌, ◌%◌, ◌^◌, min, Bool, true, false, ◌==◌, ◌||◌, ◌&&◌, ltb, leb,
  if◌then◌else◌, List, [], ◌∷◌, Option, none, some, ℤ, pos, negsuc,
}

-- The bytes of a literal.
abbrev pub codes : String → List ℕ
codes String.[] = []
codes (String.◌∷◌ c s) = code c ∷ codes s

-- `strcmp(a, b) == 0`.
unfoldable pub is_same : List ℕ → List ℕ → Bool
is_same [] [] = true
is_same [] (b ∷ y) = false
is_same (a ∷ x) [] = false
is_same (a ∷ x) (b ∷ y) = a == b && is_same x y

-- What comes before a byte: `memchr`, and `strlen` with 0.
unfoldable pub before : ℕ → List ℕ → List ℕ
before c [] = []
before c (b ∷ bs) = let rest = before c bs in if b == c then [] else b ∷ rest

-- What comes behind it, if it is there.
unfoldable pub behind : ℕ → List ℕ → Option (List ℕ)
behind c [] = none
behind c (b ∷ bs) = let rest = behind c bs in if b == c then some bs else rest

-- `isspace` and `isdigit` of the C locale.
abbrev pub is_space : ℕ → Bool
is_space c = c == 32 || (leb 9 c && leb c 13)

abbrev pub is_digit : ℕ → Bool
is_digit c = leb 48 c && leb c 57

unfoldable pub skip_space : List ℕ → List ℕ
skip_space [] = []
skip_space (c ∷ cs) = let rest = skip_space cs in if is_space c then rest else c ∷ cs

-- The number that the digits at the front make, behind one that was read before, and the rest.
unfoldable pub digits : List ℕ → ℕ → ℕ × List ℕ
digits [] value = (value, [])
digits (c ∷ cs) value =
    let rest = digits cs (value * 10 + (c - 48)) in if is_digit c then rest else (value, c ∷ cs)

-- `LONG_MAX`, and the same for negative numbers.
abbrev pub long_max : ℕ
long_max = 2 ^ 63 - 1

unfoldable pub to_long : Bool → ℕ → ℤ
to_long false value = pos (min value long_max)
to_long true zero = pos 0
to_long true (suc value) = negsuc (min value long_max)

-- Behind the sign: the value and where it ends, or none for a number without digits.
unfoldable pub unsigned_part : Bool → List ℕ → Option (ℤ × List ℕ)
unfolding digits to_long
unsigned_part negative [] = none
unsigned_part negative (c ∷ cs) =
    let number = digits (c ∷ cs) 0 in
    if is_digit c then some (to_long negative number.0, number.1) else none

unfoldable pub signed_part : List ℕ → Option (ℤ × List ℕ)
unfolding unsigned_part
signed_part [] = none
signed_part (c ∷ cs) =
    if c == 45
    then unsigned_part true cs
    else if c == 43
    then unsigned_part false cs
    else unsigned_part false (c ∷ cs)

-- `strtol` to the base 10, where none says that it stops where it began.
unfoldable pub strtol : List ℕ → Option (ℤ × List ℕ)
unfolding skip_space signed_part
strtol text = signed_part (skip_space text)

-- The digits of a number, in front of others, for at most so many divisions by 10 and one.
unfoldable pub put_digits : ℕ → ℕ → List ℕ → List ℕ
put_digits zero n text = (48 + n % 10) ∷ text
put_digits (suc fuel) n text =
    let rest = put_digits fuel (n / 10) ((48 + n % 10) ∷ text) in
    if ltb n 10 then (48 + n) ∷ text else rest

-- `%d` of a number that is not negative. There are no more digits than the number says.
unfoldable pub decimal : ℕ → List ℕ
unfolding put_digits
decimal n = put_digits n n []
