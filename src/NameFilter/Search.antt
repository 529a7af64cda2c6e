-- ===== src/NameFilter/Search.antt =====
-- NameFilter::Search of src/lib/name_filter/name_filter.cc.
use minetest_map_analyzer.Prelude.{
  ℕ, ◌≡◌, refl, sym, ◌∙◌, ◌↔◌, inl, inr, true, false, List, [], ◌∷◌, Memᴰ, Bool-cases,
}
use minetest_map_analyzer.NameFilter.{Regex, NameFilter, any_matches, search_name}

true-false : true ≡ false → ⊥
true-false h = cc

module _ (regex : Regex) (str : List ℕ) where
  abbrev pub Matches : List regex.Pattern → Type 0
  Matches ps = (p : regex.Pattern) × Memᴰ p ps × (regex.matches str p ≡ true)

  later :
      (p : regex.Pattern) (ps : List regex.Pattern)
      → regex.matches str p ≡ false
      → Matches (p ∷ ps)
      → Matches ps
  later p ps e (q, Memᴰ.head same, e') = absurd (cc)
  later p ps e (q, Memᴰ.tail m, e') = (q, m, e')

  any_matches_iff : (ps : List regex.Pattern) → (any_matches regex str ps ≡ true) ↔ Matches ps
  any_matches_iff [] = (λ h. cc, λ m. elim m.1 [ ])
  any_matches_iff (p ∷ ps) = elim (Bool-cases (regex.matches str p)) [
    | inl e ↦ (λ h. (p, Memᴰ.head refl, e), λ m. rw e refl)
    | inr e ↦ (
      λ h. let (q, m, e') = (any_matches_iff ps).0 (rw e at h) in (q, Memᴰ.tail m, e'),
      λ m. rw e ((any_matches_iff ps).1 (later p ps e m)),
    )
  ]

  -- A name is found just where some positive pattern matches it and no negative one does.
  pub search_name_iff :
      (filter : NameFilter regex)
      → (search_name regex filter str ≡ true)
        ↔ (Matches filter.positive × (¬ Matches filter.negative))
  unfolding search_name
  search_name_iff filter =
      let positive = any_matches_iff filter.positive in
      let negative = any_matches_iff filter.negative in
      elim (Bool-cases (any_matches regex str filter.positive)) [
        | inr e ↦ rw e (λ h. cc, λ m. sym e ∙ positive.1 m.0)
        | inl e ↦ elim (Bool-cases (any_matches regex str filter.negative)) [
          | inl e' ↦ rw (e, e') (λ h. cc, λ m. absurd (m.1 (negative.0 e')))
          | inr e' ↦
              rw (e, e')
                (λ h. (positive.0 e, λ m. absurd (true-false (sym (negative.1 m) ∙ e'))), λ m. refl)
        ]
      ]
