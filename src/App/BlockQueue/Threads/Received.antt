-- ===== src/App/BlockQueue/Threads/Received.antt =====
-- The queue of src/app/mapblock_queue.h between threads: which keys the consumers receive.
use minetest_map_analyzer.Prelude.{
  ℕ, ◌≡◌, refl, ap, sym, ◌∙◌, subst, Bool, true, false, Option, none, some, List, [], ◌∷◌, ◌++◌,
  append_assoc, append-nil, ◌==◌, ◌⊎◌, if◌then◌else◌, Bool-cases, inl, inr,
}
use minetest_map_analyzer.Prelude.Int.{ℤ}
use minetest_map_analyzer.App.BlockQueue.{
  Queue, NoTombstone, tombstone, is_tombstone, enqueue, enqueue_lem, set_tombstone, pop, popped,
}
use minetest_map_analyzer.App.BlockQueue.Threads.{Threads, Step, Reach, init}

-- The keys that were received, in their order.
abbrev pub keys_of : List (ℕ × ℤ) → List ℤ
keys_of [] = []
keys_of ((i, key) ∷ received) = key ∷ keys_of received

keys_of-append :
    (received : List (ℕ × ℤ)) (i : ℕ) (key : ℤ)
    → keys_of (received ++ (i, key) ∷ []) ≡ keys_of received ++ key ∷ []
keys_of-append [] i key = refl
keys_of-append ((j, k) ∷ received) i key = ap (λ l. k ∷ l) (keys_of-append received i key)

abbrev pub tail : Bool → Queue
tail true = tombstone ∷ []
tail false = []

-- The keys are those received, those that wait in the queue, and those left to the producer, in this
-- order; the tombstone is behind the last of them, and a consumer that is gone has seen it.
pub record IsBalanced (keys : List ℤ) (s : Threads) (waiting : List ℤ) : Type 0 where
  pub in_queue : s.queue ≡ waiting ++ tail s.ended
  pub balance : keys_of s.received ++ (waiting ++ s.left) ≡ keys
  pub waiting_keys : NoTombstone waiting
  pub left_keys : NoTombstone s.left
  pub at_end : s.ended ≡ true → s.left ≡ []
  pub seen : (i : ℕ) → s.gone i ≡ true → (s.ended ≡ true) × (waiting ≡ [])

All-split : (a b : List ℤ) → NoTombstone (a ++ b) → NoTombstone a × NoTombstone b
All-split [] b h = (tt, h)
All-split (k ∷ a) b (h, hs) = let (x, y) = All-split a b hs in ((h, x), y)

All-append : (a b : List ℤ) → NoTombstone a → NoTombstone b → NoTombstone (a ++ b)
All-append [] b h k = k
All-append (x ∷ a) b (h, hs) k = (h, All-append a b hs k)

not_both : {b : Bool} → b ≡ true → b ≡ false → ⊥
not_both e f = cc

-- What Pop returns where keys wait, and where none do.
pop_waiting : (k : ℤ) (rest : Queue) → is_tombstone k ≡ false → pop (k ∷ rest) ≡ some (k, rest)
unfolding pop popped
pop_waiting k rest h = rw h refl

pop_end : pop (tombstone ∷ []) ≡ some (tombstone, tombstone ∷ [])
unfolding pop popped
pop_end = refl

pop_none : pop [] ≡ none
unfolding pop
pop_none = refl

same_pop : {a b : ℤ × Queue} {o : Option (ℤ × Queue)} → o ≡ some a → o ≡ some b → a ≡ b
same_pop e f = cc

nonempty : {k : ℤ} {l : List ℤ} → k ∷ l ≡ [] → ⊥
nonempty e = cc

no_pop : {a : ℤ × Queue} → none ≡ some a → ⊥
no_pop e = cc

-- Pop returns the tombstone, of which the queue is left as it is, or the first key that waits.
pub front :
    (waiting : List ℤ) (ended : Bool) (key : ℤ) (rest : Queue)
    → NoTombstone waiting
    → pop (waiting ++ tail ended) ≡ some (key, rest)
    → ((ended ≡ true) × (waiting ≡ []) × (key ≡ tombstone) × (rest ≡ tombstone ∷ []))
      ⊎ ((w : List ℤ) × (waiting ≡ key ∷ w) × (rest ≡ w ++ tail ended) × (is_tombstone key ≡ false))
front [] true key rest h e =
    let p = same_pop e pop_end in inl (refl, refl, ap (λ v. v.0) p, ap (λ v. v.1) p)
front [] false key rest h e = absurd (no_pop (sym pop_none ∙ e))
front (k ∷ w) ended key rest h e =
    let p = same_pop e (pop_waiting k (w ++ tail ended) h.0) in
    let same : key ≡ k = ap (λ v. v.0) p in
    inr (w, ap (λ x. x ∷ w) (sym same), ap (λ v. v.1) p, ap is_tombstone same ∙ h.0)

module _ (n : ℕ) (keys : List ℤ) where
  abbrev pub Balanced : Threads → Type 0
  Balanced s = (waiting : List ℤ) × IsBalanced keys s waiting

  init-Balanced : NoTombstone keys → Balanced (init keys)
  init-Balanced h = (
    [],
    record {
      in_queue = refl;
      balance = refl;
      waiting_keys = tt;
      left_keys = h;
      at_end = λ e. cc;
      seen = λ i e. cc;
    },
  )

  -- Before the end, the queue holds just the keys that wait.
  before_end :
      (s : Threads) (waiting : List ℤ)
      → IsBalanced keys s waiting
      → s.ended ≡ false
      → s.queue ≡ waiting
  before_end s waiting b e = b.in_queue ∙ ap (λ x. waiting ++ tail x) e ∙ append-nil waiting

  produce-Balanced :
      (s : Threads) (waiting batch rest : List ℤ)
      → s.left ≡ batch ++ rest
      → s.ended ≡ false
      → IsBalanced keys s waiting
      → IsBalanced keys (record s { queue = enqueue batch s.queue; left = rest }) (waiting ++ batch)
  produce-Balanced s waiting batch rest e e0 b =
      let (first, behind) = All-split batch rest (subst NoTombstone e b.left_keys) in
      record {
        in_queue =
            enqueue_lem batch s.queue
            ∙ ap (λ l. l ++ batch) (before_end s waiting b e0)
            ∙ sym (append-nil (waiting ++ batch))
            ∙ ap (λ x. (waiting ++ batch) ++ tail x) (sym e0);
        balance =
            ap (λ l. keys_of s.received ++ l)
              (append_assoc waiting batch rest ∙ ap (λ l. waiting ++ l) (sym e))
            ∙ b.balance;
        waiting_keys = All-append waiting batch b.waiting_keys first;
        left_keys = behind;
        at_end = λ h. absurd (not_both h e0);
        seen = λ i g. absurd (not_both (b.seen i g).0 e0);
      }

  finish-Balanced :
      (s : Threads) (waiting : List ℤ)
      → s.left ≡ []
      → s.ended ≡ false
      → IsBalanced keys s waiting
      → IsBalanced keys (record s { queue = set_tombstone s.queue; ended = true }) waiting
  unfolding set_tombstone
  finish-Balanced s waiting e e0 b = record {
    in_queue = ap (λ l. l ++ tombstone ∷ []) (before_end s waiting b e0);
    balance = b.balance;
    waiting_keys = b.waiting_keys;
    left_keys = b.left_keys;
    at_end = λ h. e;
    seen = λ i g. absurd (not_both (b.seen i g).0 e0);
  }

  receive-Balanced :
      (s : Threads) (waiting w : List ℤ) (i : ℕ) (key : ℤ) (rest : Queue)
      → waiting ≡ key ∷ w
      → rest ≡ w ++ tail s.ended
      → IsBalanced keys s waiting
      → IsBalanced keys (record s { queue = rest; received = s.received ++ (i, key) ∷ [] }) w
  receive-Balanced s waiting w i key rest ew er b = record {
    in_queue = er;
    balance =
        ap (λ l. l ++ (w ++ s.left)) (keys_of-append s.received i key)
        ∙ append_assoc (keys_of s.received) (key ∷ []) (w ++ s.left)
        ∙ ap (λ l. keys_of s.received ++ (l ++ s.left)) (sym ew)
        ∙ b.balance;
    waiting_keys = (subst NoTombstone ew b.waiting_keys).1;
    left_keys = b.left_keys;
    at_end = b.at_end;
    seen = λ j g. absurd (nonempty (sym ew ∙ (b.seen j g).1));
  }

  leave-Balanced :
      (s : Threads) (waiting : List ℤ) (i : ℕ) (rest : Queue)
      → s.ended ≡ true
      → waiting ≡ []
      → rest ≡ tombstone ∷ []
      → IsBalanced keys s waiting
      → IsBalanced keys
          (record s { queue = rest; gone = λ j. if j == i then true else s.gone j })
          waiting
  leave-Balanced s waiting i rest he hw er b = record {
    in_queue = er ∙ sym (ap (λ w. w ++ tail s.ended) hw ∙ ap tail he);
    balance = b.balance;
    waiting_keys = b.waiting_keys;
    left_keys = b.left_keys;
    at_end = b.at_end;
    seen = λ j g. (he, hw);
  }

  Step-Balanced : (s t : Threads) → Step n s t → Balanced s → Balanced t
  Step-Balanced s t (Step.produce key batch rest e) (waiting, b) = elim (Bool-cases s.ended) [
    | inl h ↦ absurd (nonempty (sym e ∙ b.at_end h))
    | inr h ↦ (waiting ++ key ∷ batch, produce-Balanced s waiting (key ∷ batch) rest e h b)
  ]
  Step-Balanced s t (Step.finish e ne) (waiting, b) = (waiting, finish-Balanced s waiting e ne b)
  Step-Balanced s t (Step.receive i key rest lt here popped_key other) (waiting, b) =
      elim (front waiting s.ended key rest b.waiting_keys (ap pop (sym b.in_queue) ∙ popped_key)) [
        | inl (he, hw, ek, er) ↦ absurd (not_both {b = is_tombstone key} (ap is_tombstone ek) other)
        | inr (w, ew, er, nt) ↦ (w, receive-Balanced s waiting w i key rest ew er b)
      ]
  Step-Balanced s t (Step.leave i key rest lt here popped_key at_end) (waiting, b) =
      elim (front waiting s.ended key rest b.waiting_keys (ap pop (sym b.in_queue) ∙ popped_key)) [
        | inl (he, hw, ek, er) ↦ (waiting, leave-Balanced s waiting i rest he hw er b)
        | inr (w, ew, er, nt) ↦ absurd (not_both at_end nt)
      ]

  Reach-Balanced : (s : Threads) → NoTombstone keys → Reach n keys s → Balanced s
  Reach-Balanced s h Reach.start = init-Balanced h
  Reach-Balanced t h (Reach.later {s} before step) =
      Step-Balanced s t step (Reach-Balanced s h before)

  -- However the calls are interleaved, where a consumer has left its loop, the consumers together have received
  -- the keys of the producer, each once and in their order, none of which is the tombstone.
  pub received_all :
      (s : Threads) (i : ℕ)
      → NoTombstone keys
      → Reach n keys s
      → s.gone i ≡ true
      → keys_of s.received ≡ keys
  received_all s i h reach g =
      let (waiting, b) = Reach-Balanced s h reach in
      let (ended, empty) = b.seen i g in
      sym (append-nil (keys_of s.received))
      ∙ ap (λ l. keys_of s.received ++ l) (sym (b.at_end ended) ∙ ap (λ l. l ++ s.left) (sym empty))
      ∙ b.balance
