-- ===== src/Prelude/Strings.antt =====
-- Byte strings, and maps with strings for keys: a list of pairs with different keys, in the order of
-- insertion. The program looks only keys up, or visits all pairs where their order is no matter.
use Prim.Native.Nat.{ℕ}
use mathlib.Core.Path.{◌≡◌, refl}
use mathlib.Core.Logic.{◌↔◌}
use mathlib.Core.Bool.{Bool, true, false, ◌&&◌}
use mathlib.Core.Option.{Option, none, some}
use mathlib.Core.List.{List, [], ◌∷◌}
use native.Mathlib.Omega.{arith}
use minetest_map_analyzer.Prelude.Tests.{◌==◌, if◌then◌else◌}

-- `operator==` of std::string.
unfoldable pub str_eq : List ℕ → List ℕ → Bool
str_eq [] [] = true
str_eq [] (y ∷ ys) = false
str_eq (x ∷ xs) [] = false
str_eq (x ∷ xs) (y ∷ ys) = x == y && str_eq xs ys

str_eq→eq : (s t : List ℕ) → str_eq s t ≡ true → s ≡ t
unfolding str_eq
str_eq→eq [] [] h = refl
str_eq→eq [] (y ∷ ys) h = cc
str_eq→eq (x ∷ xs) [] h = cc
str_eq→eq (x ∷ xs) (y ∷ ys) h = ground (arith, str_eq→eq xs ys)

pub str_eq_refl : (s : List ℕ) → str_eq s s ≡ true
unfolding str_eq
str_eq_refl [] = refl
str_eq_refl (x ∷ xs) = ground (arith, str_eq_refl xs)

pub str_eq_iff : (s t : List ℕ) → (str_eq s t ≡ true) ↔ (s ≡ t)
str_eq_iff s t = (str_eq→eq s t, λ e. rw e (str_eq_refl t))

module _ {ℓ} {V : Type ℓ} where
  unfoldable pub find : List ℕ → List (List ℕ × V) → Option V
  find key [] = none
  find key ((other, v) ∷ rest) = if str_eq other key then some v else find key rest

  -- `m[key] = v`
  unfoldable pub insert : List ℕ → V → List (List ℕ × V) → List (List ℕ × V)
  insert key v [] = (key, v) ∷ []
  insert key v ((other, w) ∷ rest) =
      if str_eq other key then (other, v) ∷ rest else (other, w) ∷ insert key v rest

  pub find-insert :
      (key j : List ℕ) (v : V) (m : List (List ℕ × V))
      → find j (insert key v m) ≡ (if str_eq key j then some v else find j m)
  unfolding find insert
  find-insert key j v [] = refl
  find-insert key j v ((i, w) ∷ m) =
      ground (arith, str_eq_iff key j, str_eq_iff i key, str_eq_iff i j, find-insert key j v m)
