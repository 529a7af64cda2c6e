-- ===== src/App/BlockData/Laws.antt =====
-- src/app/mapblock_data.h: the data of each block behind a write, and behind a read.
use minetest_map_analyzer.Prelude.{◌≡◌, refl, ap, if◌then◌else◌, Bool-cases, inl, inr}
use minetest_map_analyzer.Pos.{Pos, pos_eq}
use minetest_map_analyzer.Pos.Hash.{map_block_key, pos_eq_iff, pos_eq_refl}
use minetest_map_analyzer.HashMap
use minetest_map_analyzer.HashMap.Laws.{find-modify}
use minetest_map_analyzer.App.BlockData.{
  MapBlockData, MapBlockHashMap, new_data, data_or, data_at, modify_data, ref_data,
}

pub data_at-modify_data :
    (p q : Pos) (f : MapBlockData → MapBlockData) (m : MapBlockHashMap)
    → data_at q (modify_data p f m) ≡ (if pos_eq p q then f (data_at p m) else data_at q m)
data_at-modify_data p q f m =
    let found = find-modify map_block_key new_data pos_eq_iff p q f m in
    elim (Bool-cases (pos_eq p q)) [
      | inl e ↦ rw e (ap data_or (rw e at found))
      | inr e ↦ rw e (ap data_or (rw e at found))
    ]

-- A read leaves the data of every position.
pub data_at-ref_data : (p q : Pos) (m : MapBlockHashMap) → data_at q (ref_data p m).1 ≡ data_at q m
unfolding HashMap.ref
data_at-ref_data p q m = elim (Bool-cases (pos_eq p q)) [
  | inl e ↦
      rw (data_at-modify_data p q (λ v. v) m, e) (ap (λ v. data_at v m) ((pos_eq_iff p q).0 e))
  | inr e ↦ rw (data_at-modify_data p q (λ v. v) m, e) refl
]

pub ref_data_lem : (p : Pos) (m : MapBlockHashMap) → (ref_data p m).0 ≡ data_at p m
unfolding HashMap.ref
ref_data_lem p m = rw (data_at-modify_data p p (λ v. v) m, pos_eq_refl p) refl
