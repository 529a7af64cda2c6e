-- ===== src/Decimal.antt =====
-- Decimal text: the parts of the C library that src/lib/map_reader/minegeld.cc and pos.h call,
-- on a string as the list of its bytes.
use minetest_map_analyzer.Prelude.{
  ℕ, zero, suc, ◌+◌, ◌-◌, ◌*◌, ◌/◌, ◌%◌, ◌^◌, ◌≤◌, ◌<◌, ◌≡◌, refl, ltb→lt, ap, ◌∙◌, Bool, true,
  false, ◌&&◌, ◌||◌, List, [], ◌∷◌, ◌++◌, arith, ltb, leb, ◌==◌, if◌then◌else◌, append_assoc,
  append-nil, subst, Bool-cases, inl, inr, min, Option, none, some,
}
use minetest_map_analyzer.Prelude.Int.{ℤ, pos, negsuc, signed32, ◌≤ℤ◌}

unfoldable pub isdigit : ℕ → Bool
isdigit c = leb b'0' c && leb c b'9'

unfoldable pub isspace : ℕ → Bool
isspace c = c == 32 || (leb 9 c && leb c 13)

-- The digits of a number, for a number that is at most the fuel.
unfoldable pub digits : ℕ → ℕ → List ℕ
digits zero n = (n % 10 + 48) ∷ []
digits (suc f) n =
    let front = digits f (n / 10) in
    if ltb n 10 then (n + 48) ∷ [] else front ++ ((n % 10 + 48) ∷ [])

-- std::to_string of an unsigned number.
unfoldable pub decimal : ℕ → List ℕ
unfolding digits
decimal n = digits n n

-- The digits at the front of a text, added to a value, and what follows them.
unfoldable pub scan_digits : List ℕ → ℕ → ℕ × List ℕ
scan_digits [] acc = (acc, [])
scan_digits (c ∷ rest) acc =
    let more = scan_digits rest (acc * 10 + (c - 48)) in if isdigit c then more else (acc, c ∷ rest)

unfoldable pub skip_space : List ℕ → List ℕ
skip_space [] = []
skip_space (c ∷ rest) = let more = skip_space rest in if isspace c then more else c ∷ rest

abbrev starts_with_digit : List ℕ → Bool
starts_with_digit [] = false
starts_with_digit (c ∷ rest) = isdigit c

abbrev ulong_max : ℕ
ulong_max = 2 ^ 64 - 1

-- The value of the digits, negated modulo 2 ^ 64 behind a minus sign, and ULONG_MAX where it does
-- not fit.
abbrev unsigned_value : Bool → ℕ → ℕ
unsigned_value negative v =
    if ltb ulong_max v then ulong_max else if negative then (2 ^ 64 - v) % 2 ^ 64 else v

strtoul_digits : List ℕ → Bool → List ℕ → ℕ × List ℕ
strtoul_digits start negative rest =
    let (v, end) = scan_digits rest 0 in
    if starts_with_digit rest then (unsigned_value negative v, end) else (0, start)

strtoul_sign : List ℕ → List ℕ → ℕ × List ℕ
strtoul_sign start [] = (0, start)
strtoul_sign start (c ∷ rest) =
    if c == b'-'
    then strtoul_digits start true rest
    else strtoul_digits start false (if c == b'+' then rest else c ∷ rest)

-- strtoul(start, &end, 10): the value, and the text from `end` on.
unfoldable pub strtoul : List ℕ → ℕ × List ℕ
unfolding strtoul_sign strtoul_digits skip_space
strtoul start = strtoul_sign start (skip_space start)

-- `%d` of sscanf, behind the sign: none without a digit. An int that does not fit is undefined in C; here
-- it is the low half of the long to which glibc reads it.
abbrev pub int_value : Bool → ℕ → ℤ
int_value true v = signed32 ((2 ^ 64 - min v (2 ^ 63)) % 2 ^ 32)
int_value false v = signed32 (min v (2 ^ 63 - 1) % 2 ^ 32)

scan_unsigned : Bool → List ℕ → Option (ℤ × List ℕ)
scan_unsigned negative text =
    let (v, end) = scan_digits text 0 in
    if starts_with_digit text then some (int_value negative v, end) else none

scan_sign : List ℕ → Option (ℤ × List ℕ)
scan_sign [] = none
scan_sign (c ∷ text) =
    if c == b'-'
    then scan_unsigned true text
    else scan_unsigned false (if c == b'+' then text else c ∷ text)

-- `%d` of sscanf: the value, and the text behind it.
unfoldable pub scan_int : List ℕ → Option (ℤ × List ℕ)
unfolding scan_sign scan_unsigned skip_space
scan_int text = scan_sign (skip_space text)

-- std::to_string of an int.
unfoldable pub to_string : ℤ → List ℕ
to_string (pos n) = decimal n
to_string (negsuc n) = b'-' ∷ decimal (suc n)

-- A text that does not go on with a digit.
abbrev pub IsEnded : List ℕ → Type 0
IsEnded rest = starts_with_digit rest ≡ false

isdigit_digit : (d : ℕ) → d < 10 → isdigit (d + 48) ≡ true
unfolding isdigit
isdigit_digit d h = ground arith

scan_digits_digit :
    (d acc : ℕ) (rest : List ℕ)
    → d < 10
    → scan_digits ((d + 48) ∷ rest) acc ≡ scan_digits rest (acc * 10 + d)
unfolding scan_digits
scan_digits_digit d acc rest h =
    rw (isdigit_digit d h) (ap (λ v. scan_digits rest (acc * 10 + v)) (omega arith))

scan_digits-digits :
    (f n : ℕ) (rest : List ℕ) → n ≤ f → scan_digits (digits f n ++ rest) 0 ≡ scan_digits rest n
unfolding digits
scan_digits-digits zero zero rest h = scan_digits_digit 0 0 rest (omega arith)
scan_digits-digits zero (suc n) rest h = absurd (omega arith)
scan_digits-digits (suc f) n rest h = elim (Bool-cases (ltb n 10)) [
  | inl e ↦ rw e (scan_digits_digit n 0 rest (ground arith) ∙ ap (scan_digits rest) (omega arith))
  | inr e ↦
      rw (e, append_assoc)
        (scan_digits-digits f (n / 10) ((n % 10 + 48) ∷ rest) (ground arith)
          ∙ scan_digits_digit (n % 10) (n / 10) rest (omega arith)
          ∙ ap (scan_digits rest) (omega arith))
]

scan_digits_ended : (rest : List ℕ) (n : ℕ) → IsEnded rest → scan_digits rest n ≡ (n, rest)
unfolding scan_digits
scan_digits_ended [] n h = refl
scan_digits_ended (c ∷ rest) n h = rw h

-- The text of a number begins with a digit.
digits_head :
    (f n : ℕ) → n ≤ f → (d : ℕ) × (more : List ℕ) × (d < 10) × (digits f n ≡ (d + 48) ∷ more)
unfolding digits
digits_head zero zero h = (0, [], omega arith, refl)
digits_head zero (suc n) h = absurd (omega arith)
digits_head (suc f) n h = elim (Bool-cases (ltb n 10)) [
  | inl e ↦ (n, [], ltb→lt _ _ e, rw e)
  | inr e ↦
      let (d, more, small, eq) = digits_head f (n / 10) (ground arith) in
      (d, more ++ ((n % 10 + 48) ∷ []), small, rw (e, eq))
]

isspace_digit : (d : ℕ) → d < 10 → isspace (d + 48) ≡ false
unfolding isspace
isspace_digit d h = ground arith

digit_strtoul :
    (d : ℕ) (more : List ℕ)
    → d < 10
    → strtoul ((d + 48) ∷ more) ≡ (
      unsigned_value false (scan_digits ((d + 48) ∷ more) 0).0,
      (scan_digits ((d + 48) ∷ more) 0).1,
    )
unfolding strtoul
digit_strtoul d more h =
    let minus : (d + 48 == b'-') ≡ false = ground arith in
    let plus : (d + 48 == b'+') ≡ false = ground arith in
    rw (isspace_digit d h, minus, plus, isdigit_digit d h)

-- `strtoul` reads the decimal text of a number below 2 ^ 64, and stops at the first character that
-- is no digit.
pub strtoul-decimal :
    (n : ℕ) (rest : List ℕ) → n < 2 ^ 64 → IsEnded rest → strtoul (decimal n ++ rest) ≡ (n, rest)
unfolding decimal
strtoul-decimal n rest h e =
    let (d, more, small, eq) = digits_head n n (omega arith) in
    let scan = scan_digits-digits n n rest (omega arith) ∙ scan_digits_ended rest n e in
    let fits : ltb ulong_max n ≡ false = ground arith in
    rw (eq, digit_strtoul d (more ++ rest) small, rw eq at scan, fits)

pub strtoul-decimal_all : (n : ℕ) → n < 2 ^ 64 → strtoul (decimal n) ≡ (n, [])
strtoul-decimal_all n h =
    subst (λ l. strtoul l ≡ (n, [])) (append-nil (decimal n)) (strtoul-decimal n [] h refl)

pub decimal_head : (n : ℕ) → (d : ℕ) × (more : List ℕ) × (d < 10) × (decimal n ≡ (d + 48) ∷ more)
unfolding decimal
decimal_head n = digits_head n n (omega arith)

unsigned_value-lt : (negative : Bool) (v : ℕ) → unsigned_value negative v < 2 ^ 64
unsigned_value-lt negative v = ground arith

strtoul_digits-lt :
    (start : List ℕ) (negative : Bool) (rest : List ℕ)
    → (strtoul_digits start negative rest).0 < 2 ^ 64
unfolding strtoul_digits
strtoul_digits-lt start negative rest =
    let bound = unsigned_value-lt negative (scan_digits rest 0).0 in
    elim (Bool-cases (starts_with_digit rest)) [ inl e ↦ rw e bound | inr e ↦ rw e (omega arith) ]

strtoul_sign-lt : (start rest : List ℕ) → (strtoul_sign start rest).0 < 2 ^ 64
strtoul_sign-lt start [] = unfold strtoul_sign in omega arith
strtoul_sign-lt start (c ∷ rest) =
    unfold strtoul_sign in
    elim (Bool-cases (c == b'-')) [
      | inl e ↦ rw e (strtoul_digits-lt start true rest)
      | inr e ↦ rw e (strtoul_digits-lt start false (if c == b'+' then rest else c ∷ rest))
    ]

pub strtoul-lt : (s : List ℕ) → (strtoul s).0 < 2 ^ 64
strtoul-lt s = unfold strtoul in strtoul_sign-lt s (skip_space s)

digit_scan_int :
    (d : ℕ) (more : List ℕ)
    → d < 10
    → scan_int ((d + 48) ∷ more)
      ≡ some
          (int_value false (scan_digits ((d + 48) ∷ more) 0).0, (scan_digits ((d + 48) ∷ more) 0).1)
unfolding scan_int
digit_scan_int d more h =
    let minus : (d + 48 == b'-') ≡ false = ground arith in
    let plus : (d + 48 == b'+') ≡ false = ground arith in
    rw (isspace_digit d h, minus, plus, isdigit_digit d h)

minus_scan_int :
    (d : ℕ) (more : List ℕ)
    → d < 10
    → scan_int (b'-' ∷ (d + 48) ∷ more)
      ≡ some
          (int_value true (scan_digits ((d + 48) ∷ more) 0).0, (scan_digits ((d + 48) ∷ more) 0).1)
unfolding scan_int isspace
minus_scan_int d more h = rw (isdigit_digit d h)

-- `%d` reads what std::to_string has written of an int, up to the first character that is no digit.
pub scan_int-to_string :
    (v : ℤ) (rest : List ℕ)
    → negsuc (2 ^ 31 - 1) ≤ℤ v
    → v ≤ℤ pos (2 ^ 31 - 1)
    → IsEnded rest
    → scan_int (to_string v ++ rest) ≡ some (v, rest)
unfolding to_string decimal
scan_int-to_string (pos n) rest lo hi e =
    let (d, more, small, eq) = digits_head n n (omega arith) in
    let scan = scan_digits-digits n n rest (omega arith) ∙ scan_digits_ended rest n e in
    let value : int_value false n ≡ pos n = ground arith in
    rw (eq, digit_scan_int d (more ++ rest) small, rw eq at scan, value)
scan_int-to_string (negsuc n) rest lo hi e =
    let (d, more, small, eq) = digits_head (suc n) (suc n) (omega arith) in
    let scan =
      scan_digits-digits (suc n) (suc n) rest (omega arith) ∙ scan_digits_ended rest (suc n) e in
    let value : int_value true (suc n) ≡ negsuc n = ground arith in
    rw (eq, minus_scan_int d (more ++ rest) small, rw eq at scan, value)
