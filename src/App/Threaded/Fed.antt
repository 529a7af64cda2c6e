-- ===== src/App/Threaded/Fed.antt =====
-- App::RunThreaded of src/app/app.cc: the keys between the producer and the consumers, each of which is
-- counted once.
pub mod Moves
use minetest_map_analyzer.Prelude.{
  ℕ, ◌+◌, ◌≡◌, ◌<◌, ◌⊎◌, refl, ap, sym, ◌∙◌, subst, Bool, true, false, Option, none, some, List, [],
  ◌∷◌, ◌++◌, length, ◌==◌, if◌then◌else◌, Bool-cases, inl, inr, arith,
}
use minetest_map_analyzer.Prelude.Int.{ℤ}
use minetest_map_analyzer.Prelude.Families.{update, update-all, total, total-update}
use minetest_map_analyzer.Exceptions.{Result}
use minetest_map_analyzer.Pos.{Pos}
use minetest_map_analyzer.App.BlockQueue.{Queue, NoTombstone, tombstone, is_tombstone, pop, popped}
use minetest_map_analyzer.App.BlockQueue.Threads.Received.{tail}
use minetest_map_analyzer.App.NodeScan.{NodeIdMapExtraInfo}
use minetest_map_analyzer.App.State.{App, enqueue_map_block_pos}
use minetest_map_analyzer.App.Threaded.Consuming.{Phase, Local}
use minetest_map_analyzer.App.Threaded.Views.{View}

-- The consumer has seen the tombstone.
abbrev pub saw_end : Local → Bool
saw_end l = elim (l.phase) [
  | Phase.ready ↦ false
  | Phase.loading key ↦ false
  | Phase.scanning key ↦ false
  | Phase.writing key u a ↦ false
  | Phase.pushing key a ↦ false
  | Phase.noting key a ↦ false
  | Phase.leaving ↦ true
  | Phase.gone ↦ true
]

-- 1 where the consumer has a key that it has yet to count.
abbrev pub uncounted : Local → ℕ
uncounted l = elim (l.phase) [
  | Phase.ready ↦ 0
  | Phase.loading key ↦ 1
  | Phase.scanning key ↦ 0
  | Phase.writing key u a ↦ 0
  | Phase.pushing key a ↦ 0
  | Phase.noting key a ↦ 0
  | Phase.leaving ↦ 0
  | Phase.gone ↦ 0
]

-- 1 where the consumer has counted a block as good that it has yet to enqueue.
abbrev pub unpushed : Local → ℕ
unpushed l = elim (l.phase) [
  | Phase.ready ↦ 0
  | Phase.loading key ↦ 0
  | Phase.scanning key ↦ 1
  | Phase.writing key u a ↦ 1
  | Phase.pushing key a ↦ 1
  | Phase.noting key a ↦ 0
  | Phase.leaving ↦ 0
  | Phase.gone ↦ 0
]

-- `left` are the keys that no consumer has taken, in the queue or the producer's batch; the tombstone is
-- behind them where it is set. `written` blocks have left the queue of blocks.
pub record IsFed (n : ℕ) (v : View) (keys : List ℤ) (produced : Bool) (local : ℕ → Local)
    (written : ℕ) (left : List ℤ) : Type 0 where
  pub in_queue : v.queue ++ keys ≡ left ++ tail produced
  pub left_keys : NoTombstone left
  pub seen : (i : ℕ) → saw_end (local i) ≡ true → (produced ≡ true) × (left ≡ [])
  pub counted :
      v.stats.good_map_blocks + v.stats.bad_map_blocks + total uncounted n local + length left
      ≡ v.stats.queued_map_blocks
  pub pushed : length v.block_queue + written + total unpushed n local ≡ v.stats.good_map_blocks

abbrev pub Fed : ℕ → View → List ℤ → Bool → (ℕ → Local) → ℕ → Type 0
Fed n v keys produced local written = (left : List ℤ) × IsFed n v keys produced local written left

not_both : {b : Bool} → b ≡ true → b ≡ false → ⊥
not_both e f = cc

popped_lem :
    (key k : ℤ) (q rest : Queue)
    → ◌≡◌ {A = Option (ℤ × Queue)} (some (k, popped k q)) (some (key, rest))
    → (k ≡ key) × (popped k q ≡ rest)
popped_lem key k q rest e = (cc, cc)

-- Pop returns the key at the front, which is left only where it is the tombstone.
pub pop-key :
    (key : ℤ) (q rest : Queue)
    → pop q ≡ some (key, rest)
    → is_tombstone key ≡ false
    → q ≡ key ∷ rest
unfolding pop popped
pop-key key [] rest e h = cc
pop-key key (k ∷ q) rest e h =
    let (same, r) = popped_lem key k q rest e in
    let other : is_tombstone k ≡ false = ap is_tombstone same ∙ h in
    let r' : q ≡ rest = rw other at r in ap (λ l. k ∷ l) r' ∙ ap (λ l. l ∷ rest) same

pub pop-end :
    (key : ℤ) (q rest : Queue)
    → pop q ≡ some (key, rest)
    → is_tombstone key ≡ true
    → (q ≡ rest) × ((more : Queue) × (q ≡ key ∷ more))
unfolding pop popped
pop-end key [] rest e h = cc
pop-end key (k ∷ q) rest e h =
    let (same, r) = popped_lem key k q rest e in
    let other : is_tombstone k ≡ true = ap is_tombstone same ∙ h in
    let r' : k ∷ q ≡ rest = rw other at r in (r', (q, ap (λ x. x ∷ q) same))

head_same : {a b : ℤ} {q r : Queue} → a ∷ q ≡ b ∷ r → (a ≡ b) × (q ≡ r)
head_same e = (cc, cc)

-- What is at the front of the keys that are left.
pub front_key :
    (left : List ℤ) (produced : Bool) (key : ℤ) (rest : Queue)
    → key ∷ rest ≡ left ++ tail produced
    → is_tombstone key ≡ false
    → (w : List ℤ) × (left ≡ key ∷ w) × (rest ≡ w ++ tail produced)
front_key [] true key rest e h =
    absurd (not_both {b = is_tombstone key} (ap is_tombstone (head_same e).0) h)
front_key [] false key rest e h = cc
front_key (k ∷ w) produced key rest e h =
    let (same, r) = head_same e in (w, ap (λ x. x ∷ w) (sym same), r)

pub front_end :
    (left : List ℤ) (produced : Bool) (key : ℤ) (rest : Queue)
    → NoTombstone left
    → key ∷ rest ≡ left ++ tail produced
    → is_tombstone key ≡ true
    → (produced ≡ true) × (left ≡ [])
front_end [] true key rest fresh e h = (refl, refl)
front_end [] false key rest fresh e h = cc
front_end (k ∷ w) produced key rest fresh e h =
    absurd (not_both (ap is_tombstone (sym (head_same e).0) ∙ h) fresh.0)
