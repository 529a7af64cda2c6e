-- ===== src/Inventory/Safety.antt =====
-- Inventory::deserialize_inventory of src/lib/map_reader/inventory.cc: how it can end.
use minetest_map_analyzer.Prelude.{
  ℕ, zero, suc, ◌+◌, ◌-◌, ◌≤◌, ◌<◌, ◌≡◌, refl, ap, subst, ◌⊎◌, inl, inr, arith, length,
}
use minetest_map_analyzer.Exceptions.{Exception, Result, ok, throw}
use minetest_map_analyzer.Blob.{BlobReader, Read, size, read_line}
use minetest_map_analyzer.Blob.Lines.{read_line_sound}
use minetest_map_analyzer.Blob.Safety.{
  Outcome, Outcome-trans, Safe, Safe-pure, Safe-fail, Safe-read_line,
}
use minetest_map_analyzer.Inventory.{
  Inventory, Parse, Action, next, finish, reject, after_line, inventory_line, inventory_loop,
  deserialize_inventory,
}

Result-cases {ℓ} :
    {A : Type ℓ} (r : Result A) → ((a : A) × (r ≡ ok a)) ⊎ ((e : Exception) × (r ≡ throw e))
Result-cases (ok a) = inl (a, refl)
Result-cases (throw e) = inr (e, refl)

after_line-Outcome :
    (loop : Parse → Read Inventory) (r : BlobReader) (a : Action)
    → r.ptr ≤ size r
    → ((s : Parse) → Outcome r (loop s r))
    → Outcome r (after_line loop a r)
after_line-Outcome loop r (next s) h k = k s
after_line-Outcome loop r (finish lists) h k = (Safe-pure lists).at r h
after_line-Outcome loop r (reject e) h k = (Safe-fail {A = Inventory} "inventory" e).at r h

inventory_loop-Outcome :
    (fuel : ℕ) (s : Parse) (r : BlobReader)
    → r.ptr ≤ size r
    → size r - r.ptr < fuel
    → Outcome r (inventory_loop fuel s r)
unfolding inventory_loop
inventory_loop-Outcome zero s r h k = absurd (omega arith)
inventory_loop-Outcome (suc fuel) s r h k =
    let safe = (Safe-read_line "inventory").at r h in
    elim (Result-cases (read_line "inventory" r)) [
      | inr (e, eq) ↦ rw eq (subst (Outcome r) eq safe)
      | inl ((line, r'), eq) ↦
          let out = subst (Outcome r) eq safe in
          let (rest, here, step, there) = (read_line_sound r r' "inventory" line h eq).1 in
          let same : size r' ≡ size r = ap length out.0 in
          let further : r'.ptr ≡ r.ptr + (length line + 1) = ap (λ (q : BlobReader). q.ptr) step in
          rw eq (
            Outcome-trans r r' _ out (
              after_line-Outcome (inventory_loop fuel) r' (inventory_line s line) (omega arith)
                (λ s'. inventory_loop-Outcome fuel s' r' (omega arith) (omega arith))))
    ]

-- Reading an inventory always ends: it returns or throws a SerializationError, and does not leave the
-- blob.
pub Safe-deserialize_inventory : (lists : Inventory) → Safe (deserialize_inventory lists)
unfolding deserialize_inventory
Safe-deserialize_inventory lists = record {
  at = λ r h. inventory_loop-Outcome (size r + 1) _ r h (omega arith);
}

-- From a reader inside its blob, deserialize_inventory ends: either it returns, with the reader moved
-- forward inside the same blob, or it throws a SerializationError that shows the blob's size.
pub deserialize_inventory-Outcome :
    (lists : Inventory) (r : BlobReader)
    → r.ptr ≤ size r
    → Outcome r (deserialize_inventory lists r)
deserialize_inventory-Outcome lists r v = (Safe-deserialize_inventory lists).at r v
