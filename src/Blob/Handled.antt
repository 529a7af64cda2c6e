-- ===== src/Blob/Handled.antt =====
-- What a reading method of src/lib/map_reader may throw: weaker than `Safe`, for errors that name another
-- reader.
use minetest_map_analyzer.Prelude.{◌≤◌, ◌≡◌, refl, ap, length, arith}
use minetest_map_analyzer.Exceptions.{
  Exception, Result, ok, throw, serialization, out_of_range, sqlite3_error, undefined, out_of_fuel,
  bind_result,
}
use minetest_map_analyzer.Blob.{BlobReader, Read, size, ◌>>=◌}
use minetest_map_analyzer.Blob.Safety.{Outcome, Safe}

-- The consumer catches a SerializationError, and nothing else.
abbrev pub IsHandled : Exception → Type 0
IsHandled (serialization e) = Unit {0}
IsHandled out_of_range = ⊥
IsHandled sqlite3_error = ⊥
IsHandled undefined = ⊥
IsHandled out_of_fuel = ⊥

abbrev pub Ending {ℓ} : {A : Type ℓ} → Result (A × BlobReader) → Type 0
Ending (ok (a, r)) = r.ptr ≤ size r
Ending (throw e) = IsHandled e

pub record Handled {ℓ} {A : Type ℓ} (m : Read A) : Type ℓ where
  pub at : (r : BlobReader) → r.ptr ≤ size r → Ending (m r)

module _ {ℓ} {A : Type ℓ} where
  Outcome-Ending : (r : BlobReader) (o : Result (A × BlobReader)) → Outcome r o → Ending o
  Outcome-Ending r (ok (a, r')) h = let same : size r' ≡ size r = ap length h.0 in omega arith
  Outcome-Ending r (throw (serialization e)) h = tt
  Outcome-Ending r (throw out_of_range) h = h
  Outcome-Ending r (throw sqlite3_error) h = h
  Outcome-Ending r (throw undefined) h = h
  Outcome-Ending r (throw out_of_fuel) h = h

  pub Safe-Handled : (m : Read A) → Safe m → Handled m
  Safe-Handled m s = record { at = λ r v. Outcome-Ending r (m r) (s.at r v) }

module _ {ℓ κ} {A : Type ℓ} {B : Type κ} where
  bind_result-Ending :
      (o : Result (A × BlobReader)) (f : A → Read B)
      → Ending o
      → ((a : A) (r : BlobReader) → o ≡ ok (a, r) → Handled (f a))
      → Ending (bind_result o (λ p. f p.0 p.1))
  bind_result-Ending (ok (a, r)) f h k = (k a r refl).at r h
  bind_result-Ending (throw e) f h k = h

  -- The rest of a method may use that its value was returned.
  pub Handled-bind :
      (m : Read A) (f : A → Read B)
      → Handled m
      → ((a : A) (r r' : BlobReader) → m r ≡ ok (a, r') → Handled (f a))
      → Handled (m >>= f)
  Handled-bind m f hm hf = record {
    at = λ r v. bind_result-Ending (m r) f (hm.at r v) (λ a r' e. hf a r r' e);
  }
