-- ===== src/Blob/Safety.antt =====
-- The reads of src/lib/map_reader/blob_reader.h: where they can end, with a rule for each way to build a
-- reading method.
use Prim.Native.String.{String}
use minetest_map_analyzer.Prelude.{
  ℕ, ◌+◌, ◌-◌, ◌≤◌, ◌<◌, ◌≡◌, subst, refl, ap, ◌∙◌, Bool, true, false, arith, List, [], ◌∷◌, length,
  Bool-cases, inl, inr, leb, leb→le, le→leb, suc, ◌==◌, length-drop, if◌then◌else◌,
}
use minetest_map_analyzer.Prelude.Int.{signed32}
use minetest_map_analyzer.Blob.Reads.{taking}
use minetest_map_analyzer.Exceptions.{
  Extra, Exception, Result, ok, throw, serialization, out_of_range, sqlite3_error, undefined,
  out_of_fuel, bind_result,
}
use minetest_map_analyzer.Blob.{
  BlobReader, Read, size, ahead, size_check, load, skip, read_str, read_u8, read_u16, read_u32,
  read_s32, LineEnd, isprint, newline, garbage, end_of_blob, scan_line, finish_line, read_line,
  big_endian, pure, fail, ◌>>=◌,
}

-- What a method may do from `r`: return with `_ptr` moved forward inside the same blob, or throw
-- a SerializationError whose offset and remaining count add up to the size of the blob.
abbrev pub Throws : BlobReader → Exception → Type 0
Throws r (serialization e) = (e.size ≡ size r) × (e.offset + e.remaining ≡ e.size)
Throws r out_of_range = ⊥
Throws r sqlite3_error = ⊥
Throws r undefined = ⊥
Throws r out_of_fuel = ⊥

abbrev pub Outcome {ℓ} : {A : Type ℓ} → BlobReader → Result (A × BlobReader) → Type 0
Outcome r (ok (a, r')) = (r'.blob ≡ r.blob) × (r.ptr ≤ r'.ptr) × (r'.ptr ≤ size r)
Outcome r (throw e) = Throws r e

pub record Safe {ℓ} {A : Type ℓ} (m : Read A) : Type ℓ where
  pub at : (r : BlobReader) → r.ptr ≤ size r → Outcome r (m r)

module _ {ℓ} {A : Type ℓ} where
  pub Safe-pure : (a : A) → Safe (pure a)
  Safe-pure a = record { at = λ r h. (refl, omega arith, h) }

  pub Safe-fail : (desc : String) (extra : Extra) → Safe (fail {A = A} desc extra)
  Safe-fail desc extra = record { at = λ r h. (refl, omega arith) }

  pub Safe-if : (b : Bool) (m n : Read A) → Safe m → Safe n → Safe (if b then m else n)
  Safe-if true m n km kn = km
  Safe-if false m n km kn = kn

module _ {ℓ} {A : Type ℓ} where
  pub Outcome-trans :
      (r r' : BlobReader) (o : Result (A × BlobReader))
      → (r'.blob ≡ r.blob) × (r.ptr ≤ r'.ptr) × (r'.ptr ≤ size r)
      → Outcome r' o
      → Outcome r o
  Outcome-trans r r' (throw (serialization e)) h k = (k.0 ∙ ap length h.0, k.1)
  Outcome-trans r r' (throw out_of_range) h k = k
  Outcome-trans r r' (throw sqlite3_error) h k = k
  Outcome-trans r r' (throw undefined) h k = k
  Outcome-trans r r' (throw out_of_fuel) h k = k
  Outcome-trans r r' (ok (a, r2)) h k =
      let same : size r' ≡ size r = ap length h.0 in (k.0 ∙ h.0, omega arith, omega arith)

module _ {ℓ κ} {A : Type ℓ} {B : Type κ} where
  pub Outcome-bind :
      (r : BlobReader) (o : Result (A × BlobReader)) (f : A → Read B)
      → Outcome r o
      → ((a : A) → Safe (f a))
      → Outcome r (bind_result o (λ p. f p.0 p.1))
  Outcome-bind r (throw e) f h k = h
  Outcome-bind r (ok (a, r')) f h k =
      let same : size r' ≡ size r = ap length h.0 in
      Outcome-trans r r' (f a r') h ((k a).at r' (omega arith))

  pub Safe-bind : (m : Read A) (f : A → Read B) → Safe m → ((a : A) → Safe (f a)) → Safe (m >>= f)
  Safe-bind m f km kf = record { at = λ r h. Outcome-bind r (m r) f (km.at r h) kf }

Safe-taking {ℓ} : {A : Type ℓ} (f : List ℕ → A) (n : ℕ) (desc : String) → Safe (taking f n desc)
unfolding size_check load
Safe-taking f n desc = record {
  at = λ r h. elim (Bool-cases (leb (r.ptr + n) (size r))) [
    | inl e ↦ rw (e, e) (refl, omega arith, leb→le _ _ e)
    | inr e ↦ rw e (refl, omega arith)
  ];
}

pub Safe-read_u8 : (desc : String) → Safe (read_u8 desc)
unfolding read_u8
Safe-read_u8 desc = Safe-taking big_endian 1 desc

pub Safe-read_u16 : (desc : String) → Safe (read_u16 desc)
unfolding read_u16
Safe-read_u16 desc = Safe-taking big_endian 2 desc

pub Safe-read_u32 : (desc : String) → Safe (read_u32 desc)
unfolding read_u32
Safe-read_u32 desc = Safe-taking big_endian 4 desc

pub Safe-read_s32 : (desc : String) → Safe (read_s32 desc)
unfolding read_s32
Safe-read_s32 desc = Safe-taking (λ bytes. signed32 (big_endian bytes)) 4 desc

pub Safe-read_str : (len : ℕ) (desc : String) → Safe (read_str len desc)
unfolding read_str
Safe-read_str len desc = Safe-taking (λ bytes. bytes) len desc

pub Safe-skip : (len : ℕ) (desc : String) → Safe (skip len desc)
unfolding skip size_check
Safe-skip len desc = record {
  at = λ r h. elim (Bool-cases (leb (r.ptr + len) (size r))) [
    | inl e ↦ rw e (refl, omega arith, leb→le _ _ e)
    | inr e ↦ rw e (refl, omega arith)
  ];
}

abbrev ScanBound : ℕ → LineEnd → Type 0
ScanBound n (newline k) = k < n
ScanBound n (garbage k) = k < n
ScanBound n (end_of_blob k) = k ≤ n

-- What the scan of a line passes, and what it finds, is ahead.
scan_line-le : (xs : List ℕ) (n : ℕ) → ScanBound (length xs + n) (scan_line xs n)
unfolding scan_line
scan_line-le [] n = omega arith
scan_line-le (c ∷ xs) n =
    let ih : ScanBound (suc (length xs) + n) (scan_line xs (n + 1)) =
      subst (λ m. ScanBound m (scan_line xs (n + 1))) (omega arith) (scan_line-le xs (n + 1)) in
    elim (Bool-cases (isprint c)) [
      | inl e ↦ rw e ih
      | inr e ↦ elim (Bool-cases (c == 10)) [
        | inl e' ↦ rw (e, e') (omega arith)
        | inr e' ↦ rw (e, e') (omega arith)
      ]
    ]

finish_line-Outcome :
    (desc : String) (e : LineEnd) (r : BlobReader)
    → r.ptr ≤ size r
    → ScanBound (size r - r.ptr) e
    → Outcome r (finish_line desc e r)
unfolding finish_line load
finish_line-Outcome desc (newline n) r h b =
    rw (le→leb (r.ptr + n) (size r) (omega arith)) (refl, omega arith, omega arith)
finish_line-Outcome desc (garbage n) r h b = (refl, omega arith)
finish_line-Outcome desc (end_of_blob n) r h b = (refl, omega arith)

pub Safe-read_line : (desc : String) → Safe (read_line desc)
unfolding read_line
Safe-read_line desc = record {
  at = λ r h. finish_line-Outcome desc (scan_line (ahead r) 0) r h (
      subst (λ m. ScanBound m (scan_line (ahead r) 0)) (omega (arith, length-drop r.ptr r.blob))
        (scan_line-le (ahead r) 0));
}

pub ruleset safe_rules = (
  Safe-pure, Safe-fail, Safe-if, Safe-bind, Safe-read_u8, Safe-read_u16, Safe-read_u32,
  Safe-read_s32, Safe-read_str, Safe-skip, Safe-read_line,
)
