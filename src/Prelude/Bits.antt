-- ===== src/Prelude/Bits.antt =====
-- Laws of `bit_and` and `bit_or` at variables, a hexadecimal digit at a time.
use Prim.Native.Nat.{bit_and, bit_or, bitwise, digits, bit_and-bitwise, bit_or-bitwise}
use Prim.Native.Nat.{ℕ, zero, suc, ◌+◌, ◌*◌, ◌/◌, ◌%◌, ◌≤◌, ◌<◌, min, max}
use mathlib.Core.Path.{◌≡◌, refl, sym, ap, ◌∙◌}
use native.Mathlib.Omega.{arith}

-- An operation on binary digits, with its result where the first number has ended.
module _ (at_end : ℕ → ℕ) (op : ℕ → ℕ → ℕ) where
  digits-ended : (rounds b : ℕ) → digits at_end op rounds 0 b ≡ at_end b
  digits-ended zero b = refl
  digits-ended (suc rounds) b = refl

  -- The count of rounds is no matter if it is large enough.
  digits-rounds :
      (a b few many : ℕ) → a ≤ few → a ≤ many → digits at_end op few a b ≡ digits at_end op many a b
  digits-rounds zero b few many p q = digits-ended few b ∙ sym (digits-ended many b)
  digits-rounds (suc a) b zero many p q = absurd (omega arith)
  digits-rounds (suc a) b (suc few) zero p q = absurd (omega arith)
  digits-rounds (suc a) b (suc few) (suc many) p q =
      ap (λ high. high * 2 + op (suc a % 2) (b % 2))
        (digits-rounds (suc a / 2) (b / 2) few many (omega arith) (omega arith))

  lowest_digit :
      (a b : ℕ)
      → bitwise at_end op (suc a) b
        ≡ bitwise at_end op (suc a / 2) (b / 2) * 2 + op (suc a % 2) (b % 2)
  lowest_digit a b =
      ap (λ high. high * 2 + op (suc a % 2) (b % 2))
        (digits-rounds (suc a / 2) (b / 2) a (suc a / 2) (omega arith) (omega arith))

none-bit_and : (b : ℕ) → bit_and 0 b ≡ 0
none-bit_and b = bit_and-bitwise 0 b

and_halves : (a b : ℕ) → bit_and a b ≡ bit_and (a / 2) (b / 2) * 2 + min (a % 2) (b % 2)
and_halves zero b = omega (arith, none-bit_and (b / 2), none-bit_and b)
and_halves (suc a) b =
    bit_and-bitwise (suc a) b
    ∙ lowest_digit (λ d. 0) min a b
    ∙ ap (λ high. high * 2 + min (suc a % 2) (b % 2)) (sym (bit_and-bitwise (suc a / 2) (b / 2)))

none-bit_or : (b : ℕ) → bit_or 0 b ≡ b
none-bit_or b = bit_or-bitwise 0 b

or_halves : (a b : ℕ) → bit_or a b ≡ bit_or (a / 2) (b / 2) * 2 + max (a % 2) (b % 2)
or_halves zero b = omega (arith, none-bit_or (b / 2), none-bit_or b)
or_halves (suc a) b =
    bit_or-bitwise (suc a) b
    ∙ lowest_digit (λ d. d) max a b
    ∙ ap (λ high. high * 2 + max (suc a % 2) (b % 2)) (sym (bit_or-bitwise (suc a / 2) (b / 2)))

or_none_below : (bound a : ℕ) → a ≤ bound → bit_or a 0 ≡ a
or_none_below zero a h = let e : a ≡ 0 = omega arith in ap (λ k. bit_or k 0) e ∙ sym e
or_none_below (suc bound) a h =
    omega (arith, or_halves a 0, or_none_below bound (a / 2) (omega arith))

or_none : (a : ℕ) → bit_or a 0 ≡ a
or_none a = or_none_below a a (omega arith)

-- One bit, and one hexadecimal digit, below an even number and a multiple of 16.
or_even : (h b : ℕ) → bit_or (h * 2) b ≡ bit_or h (b / 2) * 2 + b % 2
or_even h b =
    let half : h * 2 / 2 ≡ h = omega arith in rw (or_halves (h * 2) b) (rw half (omega arith))

or_digit : (h b : ℕ) → bit_or (h * 16) b ≡ bit_or h (b / 16) * 16 + b % 16
or_digit h b =
    let e : h * 16 ≡ h * 2 * 2 * 2 * 2 = omega arith in
    let d : b / 2 / 2 / 2 / 2 ≡ b / 16 = omega arith in
    rw (e, or_even, or_even, or_even, or_even, d) (omega arith)

pub or_low_digit : (h b : ℕ) → b < 16 → bit_or (h * 16) b ≡ h * 16 + b
or_low_digit h b p = let z : b / 16 ≡ 0 = omega arith in rw (or_digit, z, or_none) (omega arith)

-- Four digits, and 16 and 32 bits below a multiple of 2 ^ 16 and of 2 ^ 32.
or_word : (h b : ℕ) → bit_or (h * 65536) b ≡ bit_or h (b / 65536) * 65536 + b % 65536
or_word h b =
    let e : h * 65536 ≡ h * 16 * 16 * 16 * 16 = omega arith in
    let d : b / 16 / 16 / 16 / 16 ≡ b / 65536 = omega arith in
    rw (e, or_digit, or_digit, or_digit, or_digit, d) (omega arith)

pub or_low_16 : (h b : ℕ) → b < 65536 → bit_or (h * 65536) b ≡ h * 65536 + b
or_low_16 h b p = let z : b / 65536 ≡ 0 = omega arith in rw (or_word, z, or_none) (omega arith)

pub or_low_32 : (h b : ℕ) → b < 4294967296 → bit_or (h * 4294967296) b ≡ h * 4294967296 + b
or_low_32 h b p =
    let e : h * 4294967296 ≡ h * 65536 * 65536 = omega arith in
    let z : b / 65536 / 65536 ≡ 0 = omega arith in
    rw (e, or_word, or_word, z, or_none) (omega arith)

or_swap_below : (bound a b : ℕ) → a ≤ bound → bit_or a b ≡ bit_or b a
or_swap_below zero a b h =
    let e : a ≡ 0 = omega arith in
    ap (λ k. bit_or k b) e ∙ none-bit_or b ∙ sym (ap (bit_or b) e ∙ or_none b)
or_swap_below (suc bound) a b h =
    omega (arith, or_halves a b, or_halves b a, or_swap_below bound (a / 2) (b / 2) (omega arith))

pub bit_or_comm : (a b : ℕ) → bit_or a b ≡ bit_or b a
bit_or_comm a b = or_swap_below a a b (omega arith)

and_odd : (a m : ℕ) → bit_and a (m * 2 + 1) ≡ bit_and (a / 2) m * 2 + a % 2
and_odd a m =
    let half : (m * 2 + 1) / 2 ≡ m = omega arith in
    rw (and_halves a (m * 2 + 1)) (rw half (omega arith))

and_digit : (a m : ℕ) → bit_and a (m * 16 + 15) ≡ bit_and (a / 16) m * 16 + a % 16
and_digit a m =
    let e : m * 16 + 15 ≡ (((m * 2 + 1) * 2 + 1) * 2 + 1) * 2 + 1 = omega arith in
    let d : a / 2 / 2 / 2 / 2 ≡ a / 16 = omega arith in
    rw (e, and_odd, and_odd, and_odd, and_odd, d) (omega arith)

and_none_below : (bound a : ℕ) → a ≤ bound → bit_and a 0 ≡ 0
and_none_below zero a h = let e : a ≡ 0 = omega arith in ap (λ k. bit_and k 0) e
and_none_below (suc bound) a h =
    omega (arith, and_halves a 0, and_none_below bound (a / 2) (omega arith))

and_none : (a : ℕ) → bit_and a 0 ≡ 0
and_none a = and_none_below a a (omega arith)

-- The masks 0xf and 0xffff.
pub mask_4 : (a : ℕ) → bit_and a 15 ≡ a % 16
mask_4 a = omega (arith, and_digit a 0, and_none (a / 16))

pub mask_16 : (a : ℕ) → bit_and a 65535 ≡ a % 65536
mask_16 a = omega (
  arith,
  and_digit a 4095,
  and_digit (a / 16) 255,
  and_digit (a / 16 / 16) 15,
  mask_4 (a / 16 / 16 / 16),
)
