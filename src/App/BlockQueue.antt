-- ===== src/App/BlockQueue.antt =====
-- src/app/mapblock_queue.h: the block numbers that the producer hands to the consumers.
pub mod Threads
use minetest_map_analyzer.Prelude.{
  ℕ, zero, suc, subst, All, replicate, ◌+◌, ◌-◌, ◌^◌, ◌≡◌, refl, ap, sym, ◌∙◌, Bool, false, ◌&&◌,
  Option, none, some, List, [], ◌∷◌, ◌++◌, append_assoc, append-nil, length, if◌then◌else◌, arith,
}
use minetest_map_analyzer.Prelude.Int.{ℤ, pos, leb_ℤ}

-- MapBlockKey::MakeTombstone: the greatest int64_t.
abbrev pub tombstone : ℤ
tombstone = pos (2 ^ 63 - 1)

-- MapBlockKey::isTombstone
abbrev pub is_tombstone : ℤ → Bool
is_tombstone key = leb_ℤ key tombstone && leb_ℤ tombstone key

-- The `queue_` of a MapBlockQueue, the front first.
abbrev pub Queue : Type 0
Queue = List ℤ

-- MapBlockQueue::Enqueue(MapBlockKey &&)
abbrev enqueue_key : ℤ → Queue → Queue
enqueue_key key queue = queue ++ key ∷ []

-- MapBlockQueue::Enqueue(std::vector<MapBlockKey> &&): one push after the other.
unfoldable pub enqueue : List ℤ → Queue → Queue
enqueue [] queue = queue
enqueue (key ∷ keys) queue = enqueue keys (queue ++ key ∷ [])

-- MapBlockQueue::SetTombstone
unfoldable pub set_tombstone : Queue → Queue
set_tombstone queue = queue ++ tombstone ∷ []

-- What is left behind the key at the front: a tombstone stays in the queue.
unfoldable pub popped : ℤ → Queue → Queue
popped key rest = if is_tombstone key then key ∷ rest else rest

-- MapBlockQueue::Pop: `none` where it waits for a key.
unfoldable pub pop : Queue → Option (ℤ × Queue)
pop [] = none
pop (key ∷ rest) = some (key, popped key rest)

abbrev pub push_key : ℤ → List ℤ × Queue → List ℤ × Queue
push_key key (keys, queue) = (key ∷ keys, queue)

-- The queue behind a number of calls of Pop, each by any consumer, and what they returned. A call
-- that would wait is left out.
unfoldable pub pops : ℕ → Queue → List ℤ × Queue
pops zero queue = ([], queue)
pops (suc calls) queue = elim (pop queue) [
  | none ↦ ([], queue)
  | some (key, queue') ↦ push_key key (pops calls queue')
]

-- No key of the list is the tombstone.
abbrev pub NoTombstone : List ℤ → Type 0
NoTombstone keys = All (λ key. is_tombstone key ≡ false) keys

pub enqueue_lem : (keys : List ℤ) (queue : Queue) → enqueue keys queue ≡ queue ++ keys
unfolding enqueue
enqueue_lem [] queue = sym (append-nil queue)
enqueue_lem (key ∷ keys) queue =
    enqueue_lem keys (queue ++ key ∷ []) ∙ append_assoc queue (key ∷ []) keys

pops-tombstone :
    (calls : ℕ) → pops calls (tombstone ∷ []) ≡ (replicate calls tombstone, tombstone ∷ [])
unfolding pops pop popped
pops-tombstone zero = refl
pops-tombstone (suc calls) = ap (push_key tombstone) (pops-tombstone calls)

pops_front :
    (keys : List ℤ) (calls : ℕ)
    → NoTombstone keys
    → pops (length keys + calls) (keys ++ tombstone ∷ [])
      ≡ (keys ++ replicate calls tombstone, tombstone ∷ [])
unfolding pops pop popped
pops_front [] calls h =
    subst (λ n. pops n (tombstone ∷ []) ≡ (replicate calls tombstone, tombstone ∷ [])) {x = calls}
      (omega arith) (pops-tombstone calls)
pops_front (key ∷ keys) calls h =
    subst
      (λ n.
        pops n (key ∷ keys ++ tombstone ∷ [])
        ≡ (key ∷ keys ++ replicate calls tombstone, tombstone ∷ []))
      {x = suc (length keys + calls)} (omega arith)
      (rw h.0 (ap (push_key key) (pops_front keys calls h.1)))

-- Keys of which none is the tombstone, enqueued into an empty queue and followed by the
-- tombstone, are popped in their order, one by each call; every later call returns the
-- tombstone, and leaves it in the queue.
pops-set_tombstone :
    (keys : List ℤ) (calls : ℕ)
    → NoTombstone keys
    → pops (length keys + calls) (set_tombstone (enqueue keys []))
      ≡ (keys ++ replicate calls tombstone, tombstone ∷ [])
unfolding set_tombstone
pops-set_tombstone keys calls h = rw (enqueue_lem keys []) (pops_front keys calls h)
