-- ===== src/Ipc/Parsing.antt =====
-- The numbers that ipc.c reads, and the text of the state that it writes.
use hikari_sakura.Prelude.{
  ℕ, zero, suc, ◌+◌, ◌-◌, ◌*◌, ◌/◌, ◌%◌, ◌≤◌, ◌<◌, Bool, true, false, ltb, if◌then◌else◌, if_elim,
  List, [], ◌∷◌, ◌++◌, Option, none, some, ℤ, pos, negsuc, length, replicate, All, length-append,
  append_assoc, append-nil, ◌≡◌, refl, ap, sym, ◌∙◌, arith,
}
use hikari_sakura.Ipc.Strings.{
  codes, is_space, is_digit, skip_space, digits, to_long, unsigned_part, signed_part, strtol,
  put_digits, decimal,
}
use hikari_sakura.Ipc.Requests.{
  size_of_out, nr_of_sheets, in_range, whole_number, parse_sheet_nr, put, put_counts, put_end,
  state_head, state_text,
}

digits-digit :
    (d v : ℕ) (text : List ℕ) → d < 10 → digits ((48 + d) ∷ text) v ≡ digits text (v * 10 + d)
unfolding digits
digits-digit d v text small = ground arith

digits-put_digits :
    (fuel n : ℕ) (text : List ℕ) → n ≤ fuel → digits (put_digits fuel n text) 0 ≡ digits text n
unfolding put_digits
digits-put_digits zero n text h =
    digits-digit (n % 10) 0 text (omega arith) ∙ ap (digits text) (omega arith)
digits-put_digits (suc fuel) n text h =
    if_elim (λ (t : List ℕ). digits t 0 ≡ digits text n) (ltb n 10)
      (λ small. digits-digit n 0 text (ground (arith, small)) ∙ ap (digits text) (omega arith))
      (λ large.
        digits-put_digits fuel (n / 10) ((48 + n % 10) ∷ text) (ground (arith, large))
        ∙ digits-digit (n % 10) (n / 10) text (omega arith)
        ∙ ap (digits text) (omega arith))

abbrev starts_with_digit : List ℕ → Bool
starts_with_digit [] = false
starts_with_digit (c ∷ cs) = is_digit c

put_digits_starts : (fuel n : ℕ) (text : List ℕ) → starts_with_digit (put_digits fuel n text) ≡ true
unfolding put_digits
put_digits_starts zero n text = ground arith
put_digits_starts (suc fuel) n text =
    if_elim (λ (t : List ℕ). starts_with_digit t ≡ true) (ltb n 10) (λ small. ground (arith, small))
      (λ large. put_digits_starts fuel (n / 10) ((48 + n % 10) ∷ text))

signed_part-digits :
    (text : List ℕ)
    → starts_with_digit text ≡ true
    → signed_part text ≡ some (to_long false (digits text 0).0, (digits text 0).1)
unfolding signed_part unsigned_part
signed_part-digits [] h = ground arith
signed_part-digits (c ∷ cs) h = ground arith

-- Zeros in front of a number change neither that it starts with a digit nor its value.
zeros_start :
    (k : ℕ) (text : List ℕ)
    → starts_with_digit text ≡ true
    → starts_with_digit (replicate k 48 ++ text) ≡ true
zeros_start zero text h = h
zeros_start (suc k) text h = refl

digits-zeros : (k : ℕ) (text : List ℕ) → digits (replicate k 48 ++ text) 0 ≡ digits text 0
unfolding digits
digits-zeros zero text = refl
digits-zeros (suc k) text = digits-zeros k text

abbrev IsSpace : ℕ → Type 0
IsSpace c = is_space c ≡ true

skip_space-append :
    (spaces text : List ℕ) → All IsSpace spaces → skip_space (spaces ++ text) ≡ skip_space text
unfolding skip_space
skip_space-append [] text h = refl
skip_space-append (c ∷ cs) text h = ground (arith, h.0, skip_space-append cs text h.1)

skip_space_stops : (text : List ℕ) → starts_with_digit text ≡ true → skip_space text ≡ text
unfolding skip_space
skip_space_stops [] h = refl
skip_space_stops (c ∷ cs) h = ground arith

-- A plus sign, or none.
abbrev pub with_sign : Bool → List ℕ → List ℕ
with_sign true text = 43 ∷ text
with_sign false text = text

strtol-digits :
    (spaces : List ℕ) (plus : Bool) (text : List ℕ)
    → All IsSpace spaces
    → starts_with_digit text ≡ true
    → strtol (spaces ++ with_sign plus text)
      ≡ some (to_long false (digits text 0).0, (digits text 0).1)
unfolding strtol skip_space signed_part unsigned_part
strtol-digits spaces true text hs h =
    ap signed_part (skip_space-append spaces (43 ∷ text) hs)
    ∙ ground (arith, signed_part-digits text h)
strtol-digits spaces false text hs h =
    ap signed_part (skip_space-append spaces text hs ∙ skip_space_stops text h)
    ∙ signed_part-digits text h

parse_sheet_nr_digits :
    (text : List ℕ) (n : ℕ)
    → strtol text ≡ some (to_long false n, [])
    → parse_sheet_nr (some text) ≡ (if ltb n 10 then some n else none)
unfolding parse_sheet_nr whole_number in_range to_long strtol skip_space signed_part
parse_sheet_nr_digits [] n h = ground arith
parse_sheet_nr_digits (c ∷ cs) n h = rw h (ground arith)

-- A number that is printed in decimal is read back if it is below ten, and refused otherwise,
-- however large it is. White space, a plus sign and zeros may stand in front of it.
pub parse_sheet_nr-decimal :
    (spaces : List ℕ) (plus : Bool) (zeros n : ℕ)
    → All IsSpace spaces
    → parse_sheet_nr (some (spaces ++ with_sign plus (replicate zeros 48 ++ decimal n)))
      ≡ (if ltb n 10 then some n else none)
unfolding decimal digits
parse_sheet_nr-decimal spaces plus zeros n hs =
    let text = put_digits n n [] in
    let value : digits (replicate zeros 48 ++ text) 0 ≡ (n, []) =
      digits-zeros zeros text ∙ digits-put_digits n n [] (omega arith) in
    parse_sheet_nr_digits _ n (
      strtol-digits spaces plus (replicate zeros 48 ++ text) hs
        (zeros_start zeros text (put_digits_starts n n []))
      ∙ ap (λ (r : ℕ × List ℕ). some (to_long false r.0, r.1)) value)

whole_number_below : (o : Option (ℤ × List ℕ)) (nr : ℕ) → whole_number o ≡ some nr → nr < 10
unfolding whole_number in_range
whole_number_below none nr h = ground arith
whole_number_below (some (pos value, [])) nr h = ground arith
whole_number_below (some (negsuc value, [])) nr h = ground arith
whole_number_below (some (value, c ∷ rest)) nr h = ground arith

-- A number that is read is that of a sheet.
pub parse_sheet_nr_below : (arg : Option (List ℕ)) (nr : ℕ) → parse_sheet_nr arg ≡ some nr → nr < 10
unfolding parse_sheet_nr
parse_sheet_nr_below none nr h = ground arith
parse_sheet_nr_below (some []) nr h = ground arith
parse_sheet_nr_below (some (c ∷ cs)) nr h = whole_number_below (strtol (c ∷ cs)) nr h

-- The counts of so many sheets, from one of them on, with their spaces.
abbrev pub counts_text : (ℕ → ℕ) → ℕ → ℕ → List ℕ
counts_text count zero i = []
counts_text count (suc left) i = (32 ∷ decimal (count i)) ++ counts_text count left (i + 1)

-- A text, if it is short enough for `out`.
abbrev fitting : List ℕ → Option (List ℕ)
fitting text = if ltb (length text) size_of_out then some text else none

put_counts-none : (count : ℕ → ℕ) (left i : ℕ) → put_counts count left i none ≡ none
unfolding put_counts
put_counts-none count zero i = refl
put_counts-none count (suc left) i = refl

put_counts_lem :
    (count : ℕ → ℕ) (left i : ℕ) (out : List ℕ)
    → length out < size_of_out
    → put_counts count left i (some out) ≡ fitting (out ++ counts_text count left i)
unfolding put_counts put
put_counts_lem count zero i out room = rw (append-nil out) (ground arith)
put_counts_lem count (suc left) i out room =
    if_elim
      (λ (o : Option (List ℕ)). put_counts count left (i + 1) o ≡ fitting (out ++ (text ++ rest)))
      (ltb (length text) (size_of_out - length out))
      (λ fits.
        put_counts_lem count left (i + 1) (out ++ text)
          (ground (arith, length-append out text, fits))
        ∙ ap fitting (append_assoc out text rest))
      (λ large.
        put_counts-none count left (i + 1)
        ∙ ground (arith, length-append out (text ++ rest), length-append text rest, large))
  where
    text : List ℕ
    text = 32 ∷ decimal (count i)

    rest : List ℕ
    rest = counts_text count left (i + 1)

-- The text of the state, but for its last line.
abbrev pub body_text : ℕ → List ℕ → (ℕ → ℕ) → List ℕ
body_text nr name count = state_head nr name ++ counts_text count nr_of_sheets 0

-- With its last line, if that is shorter than 511 bytes.
abbrev pub whole_or_error : List ℕ → List ℕ
whole_or_error body =
    let whole = body ++ codes "\nEND\n" in
    if ltb (length whole) 511 then whole else codes "error response too long\n"

put_end_lem : (body : List ℕ) → put_end (fitting body) ≡ whole_or_error body
unfolding put_end
put_end_lem body =
    if_elim (λ (o : Option (List ℕ)). put_end o ≡ whole_or_error body)
      (ltb (length body) size_of_out) (λ fits. ground (arith, length-append body (codes "\nEND\n")))
      (λ large. ground (arith, length-append body (codes "\nEND\n")))

whole_or_error_large :
    (head counts : List ℕ)
    → size_of_out ≤ length head
    → whole_or_error (head ++ counts) ≡ codes "error response too long\n"
whole_or_error_large head counts h =
    ground (arith, length-append head counts, length-append (head ++ counts) (codes "\nEND\n"))

length-whole_or_error : (body : List ℕ) → length (whole_or_error body) < size_of_out
length-whole_or_error body = ground arith

-- What is written piece by piece, with a test before each, is the whole text of the state if this
-- is shorter than 511 bytes, and otherwise the error alone, never a part of the text.
pub state_text_lem :
    (nr : ℕ) (name : List ℕ) (count : ℕ → ℕ)
    → state_text nr name count ≡ whole_or_error (body_text nr name count)
unfolding state_text put
state_text_lem nr name count =
    if_elim
      (λ (o : Option (List ℕ)).
        put_end (put_counts count nr_of_sheets 0 o) ≡ whole_or_error (head ++ counts))
      (ltb (length head) size_of_out)
      (λ fits.
        ap put_end (put_counts_lem count nr_of_sheets 0 head (ground (arith, fits)))
        ∙ put_end_lem (head ++ counts))
      (λ large.
        ap put_end (put_counts-none count nr_of_sheets 0)
        ∙ sym (whole_or_error_large head counts (ground (arith, large))))
  where
    head : List ℕ
    head = state_head nr name

    counts : List ℕ
    counts = counts_text count nr_of_sheets 0

pub length-state_text :
    (nr : ℕ) (name : List ℕ) (count : ℕ → ℕ) → length (state_text nr name count) < size_of_out
length-state_text nr name count =
    rw (state_text_lem nr name count) (length-whole_or_error (body_text nr name count))
