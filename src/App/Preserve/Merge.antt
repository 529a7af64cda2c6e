-- ===== src/App/Preserve/Merge.antt =====
-- The queue of packets of src/app/preserve_queue.h, and PreserveQueue::MergeThread.
use minetest_map_analyzer.Prelude.{
  ◌≡◌, refl, sym, ◌∙◌, ap, some, List, All, [], ◌∷◌, ◌++◌, append_assoc, append-nil,
}
use minetest_map_analyzer.Prelude.Int.{ℤ}
use minetest_map_analyzer.Pos.{Pos}
use minetest_map_analyzer.App.Preserve.{
  PosSet, PreserveQueue, do_merge, enqueue, set_tombstone, merge_thread,
}

-- The lists that consumers enqueue, one after the other.
abbrev pub enqueue_all : List (List Pos) → PreserveQueue → PreserveQueue
enqueue_all [] q = q
enqueue_all (positions ∷ lists) q = enqueue_all lists (enqueue positions q)

abbrev pub concat : List (List Pos) → List Pos
concat [] = []
concat (positions ∷ lists) = positions ++ concat lists

-- The lists that are not empty.
abbrev packets : List (List Pos) → List (List Pos)
packets [] = []
packets ([] ∷ lists) = packets lists
packets ((p ∷ positions) ∷ lists) = (p ∷ positions) ∷ packets lists

enqueue_all-packets :
    (lists : List (List Pos)) (q : PreserveQueue)
    → (enqueue_all lists q).merge_queue ≡ q.merge_queue ++ packets lists
unfolding enqueue
enqueue_all-packets [] q = sym (append-nil q.merge_queue)
enqueue_all-packets ([] ∷ lists) q = enqueue_all-packets lists q
enqueue_all-packets ((p ∷ positions) ∷ lists) q =
    enqueue_all-packets lists (enqueue (p ∷ positions) q)
    ∙ append_assoc q.merge_queue ((p ∷ positions) ∷ []) (packets lists)

do_merge-append :
    (r : ℤ) (a b : List Pos) (final : PosSet)
    → do_merge r (a ++ b) final ≡ do_merge r b (do_merge r a final)
unfolding do_merge
do_merge-append r [] b final = refl
do_merge-append r (p ∷ a) b final = do_merge-append r a b _

pub merge_thread-packets :
    (r : ℤ) (lists : List (List Pos)) (final : PosSet)
    → merge_thread r (packets lists ++ [] ∷ []) final
      ≡ some (record { merge_queue = [] ∷ []; final_queue = do_merge r (concat lists) final })
unfolding merge_thread
merge_thread-packets r [] final = unfold do_merge in refl
merge_thread-packets r ([] ∷ lists) final = merge_thread-packets r lists final
merge_thread-packets r ((p ∷ positions) ∷ lists) final =
    merge_thread-packets r lists (do_merge r (p ∷ positions) final)
    ∙ ap (λ (set : PosSet). some (record { merge_queue = [] ∷ []; final_queue = set }))
        (sym (do_merge-append r (p ∷ positions) (concat lists) final))

-- After any lists have been enqueued and the tombstone is set, the merging thread ends. It has merged the
-- positions of all the lists, in their order, into the set, and the queue has the tombstone left.
merge_thread-set_tombstone :
    (r : ℤ) (lists : List (List Pos)) (final : PosSet)
    → merge_thread r
        (set_tombstone
          (enqueue_all lists (record { merge_queue = []; final_queue = [] }))).merge_queue
        final
      ≡ some (record { merge_queue = [] ∷ []; final_queue = do_merge r (concat lists) final })
unfolding set_tombstone
merge_thread-set_tombstone r lists final =
    ap (λ queue. merge_thread r (queue ++ [] ∷ []) final)
      (enqueue_all-packets lists (record { merge_queue = []; final_queue = [] }))
    ∙ merge_thread-packets r lists final

-- Every packet has a position, so that none is the tombstone.
abbrev pub IsPacket : List Pos → Type 0
IsPacket [] = ⊥
IsPacket (p ∷ positions) = Unit

-- A queue that holds packets only, before any has been merged.
pub record IsPacked (q : PreserveQueue) : Type 0 where
  pub packets : All IsPacket q.merge_queue
  pub unmerged : q.final_queue ≡ []

pub packets-IsPacket : (lists : List (List Pos)) → All IsPacket lists → packets lists ≡ lists
packets-IsPacket [] h = refl
packets-IsPacket ([] ∷ lists) h = absurd h.0
packets-IsPacket ((p ∷ positions) ∷ lists) h =
    ap (λ l. (p ∷ positions) ∷ l) (packets-IsPacket lists h.1)

pub All-append :
    (P : List Pos → Type 0) (a b : List (List Pos)) → All P a → All P b → All P (a ++ b)
All-append P [] b h k = k
All-append P (x ∷ a) b (h, hs) k = (h, All-append P a b hs k)

-- Enqueueing adds packets only.
pub enqueue-IsPacked :
    (positions : List Pos) (q : PreserveQueue) → IsPacked q → IsPacked (enqueue positions q)
unfolding enqueue
enqueue-IsPacked [] q h = h
enqueue-IsPacked (p ∷ positions) q h = record {
  packets = All-append IsPacket q.merge_queue ((p ∷ positions) ∷ []) h.packets (tt, tt);
  unmerged = h.unmerged;
}
