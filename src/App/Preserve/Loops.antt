-- ===== src/App/Preserve/Loops.antt =====
-- The loops of PreserveQueue::DoMerge in src/app/preserve_queue.cc: what they insert.
use minetest_map_analyzer.Prelude.{
  ℕ, zero, suc, ◌≡◌, sym, ◌∙◌, subst, ◌↔◌, ◌⊎◌, inl, inr, [], ◌∷◌, Memᴰ, Bool-cases, arith,
}
use minetest_map_analyzer.Prelude.Int.{ℤ, pos, ◌+ℤ◌, ◌-ℤ◌, ◌≤ℤ◌, ◌<ℤ◌, pos_part, int_laws}
use mathlib.Core.List.Memᴰ
use minetest_map_analyzer.Pos.{Pos, pos_eq}
use minetest_map_analyzer.Pos.Hash.{pos_eq→eq}
use minetest_map_analyzer.App.Preserve.{PosSet, insert_pos, for_range, for_upto}

module _ (p q : Pos) where
  pub mem-insert_pos : (set : PosSet) → Memᴰ p (insert_pos q set) ↔ ((p ≡ q) ⊎ Memᴰ p set)
  unfolding insert_pos
  mem-insert_pos [] = (
    λ m. elim (Memᴰ.cases_cons m) [ inl e ↦ inl e | inr m' ↦ elim m' [ ] ],
    λ o. elim o [ inl e ↦ Memᴰ.head e | inr m ↦ elim m [ ] ],
  )
  mem-insert_pos (s ∷ set) = elim (Bool-cases (pos_eq q s)) [
    | inl e ↦
        rw e (λ m. inr m, λ o. elim o [ inl e' ↦ Memᴰ.head (e' ∙ pos_eq→eq q s e) | inr m ↦ m ])
    | inr e ↦ rw e (
      λ m. elim (Memᴰ.cases_cons m) [
        | inl e' ↦ inr (Memᴰ.head e')
        | inr m' ↦ elim ((mem-insert_pos set).0 m') [
          | inl e' ↦ inl e'
          | inr m2 ↦ inr (Memᴰ.tail m2)
        ]
      ],
      λ o. elim o [
        | inl e' ↦ Memᴰ.tail ((mem-insert_pos set).1 (inl e'))
        | inr m ↦ elim (Memᴰ.cases_cons m) [
          | inl e' ↦ Memᴰ.head e'
          | inr m' ↦ Memᴰ.tail ((mem-insert_pos set).1 (inr m'))
        ]
      ],
    )
  ]

-- A round of the body for `c` adds `p` exactly where `P c` holds.
abbrev pub Adds : Pos → (ℤ → PosSet → PosSet) → (ℤ → Type 0) → Type 0
Adds p body P = (c : ℤ) (set : PosSet) → Memᴰ p (body c set) ↔ (P c ⊎ Memᴰ p set)

abbrev pub Between : ℤ → ℤ → (ℤ → Type 0) → Type 0
Between lo hi P = (c : ℤ) × (lo ≤ℤ c) × (c ≤ℤ hi) × P c

first_or_later : (lo c : ℤ) → lo ≤ℤ c → (lo ≡ c) ⊎ ((lo +ℤ pos 1) ≤ℤ c)
unfolding ◌+ℤ◌
first_or_later lo c l = ground arith

module _ (p : Pos) (body : ℤ → PosSet → PosSet) (P : ℤ → Type 0) (adds : Adds p body P) where
  abbrev InRounds : ℤ → ℕ → Type 0
  InRounds lo count = (c : ℤ) × (lo ≤ℤ c) × (c <ℤ (lo +ℤ pos count)) × P c

  for_range-out :
      (lo : ℤ) (count : ℕ) (set : PosSet)
      → Memᴰ p (for_range body lo count set)
      → InRounds lo count ⊎ Memᴰ p set
  unfolding for_range
  for_range-out lo zero set m = inr m
  for_range-out lo (suc count) set m = elim (for_range-out (lo +ℤ pos 1) count (body lo set) m) [
    | inl (c, l, u, h) ↦ inl (c, grind int_laws, grind int_laws, h)
    | inr m' ↦ elim ((adds lo set).0 m') [
      | inl h ↦ inl (lo, omega arith, grind int_laws, h)
      | inr m2 ↦ inr m2
    ]
  ]

  for_range-keeps :
      (lo : ℤ) (count : ℕ) (set : PosSet) → Memᴰ p set → Memᴰ p (for_range body lo count set)
  unfolding for_range
  for_range-keeps lo zero set m = m
  for_range-keeps lo (suc count) set m =
      for_range-keeps (lo +ℤ pos 1) count (body lo set) ((adds lo set).1 (inr m))

  for_range-in :
      (lo : ℤ) (count : ℕ) (set : PosSet) → InRounds lo count → Memᴰ p (for_range body lo count set)
  unfolding for_range
  for_range-in lo zero set (c, l, u, h) = absurd (grind int_laws)
  for_range-in lo (suc count) set (c, l, u, h) = elim (first_or_later lo c l) [
    | inl e ↦
        for_range-keeps (lo +ℤ pos 1) count (body lo set)
          ((adds lo set).1 (inl (subst P (sym e) h)))
    | inr l' ↦ for_range-in (lo +ℤ pos 1) count (body lo set) (c, l', grind int_laws, h)
  ]

  pub mem-for_upto :
      (lo hi : ℤ) (set : PosSet) → Memᴰ p (for_upto body lo hi set) ↔ (Between lo hi P ⊎ Memᴰ p set)
  unfolding for_upto
  mem-for_upto lo hi set = (
    λ m. elim (for_range-out lo (pos_part ((hi +ℤ pos 1) -ℤ lo)) set m) [
      | inl (c, l, u, h) ↦ inl (c, l, grind int_laws, h)
      | inr m' ↦ inr m'
    ],
    λ o. elim o [
      | inl (c, l, u, h) ↦
          for_range-in lo (pos_part ((hi +ℤ pos 1) -ℤ lo)) set (c, l, grind int_laws, h)
      | inr m ↦ for_range-keeps lo (pos_part ((hi +ℤ pos 1) -ℤ lo)) set m
    ],
  )
