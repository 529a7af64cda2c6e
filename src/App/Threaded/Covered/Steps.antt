-- ===== src/App/Threaded/Covered/Steps.antt =====
-- App::RunThreaded of src/app/app.cc: what every run keeps of the packets and of the marked positions.
use minetest_map_analyzer.Prelude.{
  ℕ, ◌≡◌, refl, sym, Bool, true, false, Option, List, [], ◌∷◌, ◌++◌, All,
}
use minetest_map_analyzer.Exceptions.{Result}
use minetest_map_analyzer.Pos.{Pos}
use minetest_map_analyzer.App.NodeScan.{NodeIdMapExtraInfo}
use minetest_map_analyzer.App.State.{App}
use minetest_map_analyzer.App.Preserve.{PreserveQueue}
use minetest_map_analyzer.App.Preserve.Merge.{IsPacket}
use minetest_map_analyzer.App.Threaded.{Main, Merging}
use minetest_map_analyzer.App.Threaded.Consuming.{Phase, Local, Move}
use minetest_map_analyzer.App.Threaded.Steps.{has_joined}

-- The main thread has joined the merging thread, and taken its set.
abbrev pub has_surrendered : Main → Bool
has_surrendered main = elim main [
  | Main.watching ↦ false
  | Main.joining ↦ false
  | Main.flushing_actors ↦ false
  | Main.flushing_nodes ↦ false
  | Main.flushing_queue ↦ false
  | Main.joining_merger ↦ false
  | Main.flushing_blocks ↦ true
  | Main.finished ↦ true
]

abbrev pub end_packet : Bool → List (List Pos)
end_packet true = [] ∷ []
end_packet false = []

-- The packets wait in the queue, with the tombstone behind them once the consumers are joined; the
-- merging thread ends behind the last of them, and before the main thread takes its set.
pub record IsMerging (main : Main) (merger : Merging) (queue : PreserveQueue) : Type 0 where
  pub packets : List (List Pos)
  pub in_queue : queue.merge_queue ≡ packets ++ end_packet (has_joined main)
  pub full : All IsPacket packets
  pub ended : merger ≡ Merging.merged → (has_joined main ≡ true) × (packets ≡ [])
  pub surrendered :
      has_surrendered main ≡ true → (merger ≡ Merging.merged) × (queue.final_queue ≡ [])

-- A consumer that is gone keeps no position.
abbrev pub Emptied : (ℕ → Local) → Type 0
Emptied local = (i : ℕ) → (local i).phase ≡ Phase.gone → (local i).anthropocene_list ≡ []

pub Move-emptied :
    (threshold : ℕ) (lookup : List ℕ → NodeIdMapExtraInfo) (load : Pos → Result (Option (List ℕ)))
    (app app' : App) (x l : Local)
    → Move threshold lookup load app x app' l
    → l.phase ≡ Phase.gone
    → l.anthropocene_list ≡ []
Move-emptied threshold lookup load app app' x l (Move.take key rest positions e h) gone = cc
Move-emptied threshold lookup load app app' x l (Move.stop key rest positions e h) gone = cc
Move-emptied threshold lookup load app app' x l (Move.missing key positions e) gone = cc
Move-emptied threshold lookup load app app' x l (Move.name_node key positions name) gone = cc
Move-emptied threshold lookup load app app' x l (Move.malformed key positions bytes e) gone = cc
Move-emptied threshold lookup load app app' x l (Move.parsed key positions bytes e) gone = cc
Move-emptied threshold lookup load app app' x l (Move.name_actor key positions name) gone = cc
Move-emptied threshold lookup load app app' x l (Move.scanned key positions nodes u a) gone = cc
Move-emptied threshold lookup load app app' x l (Move.write key positions u a) gone = cc
Move-emptied threshold lookup load app app' x l (Move.push key positions a) gone = cc
Move-emptied threshold lookup load app app' x l (Move.note key positions a) gone = cc
Move-emptied threshold lookup load app app' x l (Move.leave positions) gone = refl

pub not_waiting : {merger : Merging} → merger ≡ Merging.waiting → merger ≡ Merging.merged → ⊥
not_waiting e f = cc

pub not_merging :
    {merger : Merging} {packet : List Pos}
    → merger ≡ Merging.merging packet
    → merger ≡ Merging.merged
    → ⊥
not_merging e f = cc

pub no_packet :
    (packets : List (List Pos)) (joined : Bool) (rest : List (List Pos))
    → All IsPacket packets
    → packets ++ end_packet joined ≡ [] ∷ rest
    → (joined ≡ true) × (packets ≡ [])
no_packet [] true rest full e = (refl, refl)
no_packet [] false rest full e = cc
no_packet ([] ∷ packets) joined rest full e = absurd full.0
no_packet ((p ∷ positions) ∷ packets) joined rest full e = cc

same_packets : {a b : List Pos} {q r : List (List Pos)} → a ∷ q ≡ b ∷ r → (a ≡ b) × (q ≡ r)
same_packets e = (cc, cc)

pub first_packet :
    (packets : List (List Pos)) (joined : Bool) (p : Pos) (positions : List Pos)
    (rest : List (List Pos))
    → All IsPacket packets
    → packets ++ end_packet joined ≡ (p ∷ positions) ∷ rest
    → (more : List (List Pos)) × (rest ≡ more ++ end_packet joined) × All IsPacket more
first_packet [] true p positions rest full e = cc
first_packet [] false p positions rest full e = cc
first_packet (x ∷ packets) joined p positions rest full e =
    (packets, sym (same_packets e).1, full.1)
