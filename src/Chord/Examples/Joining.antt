-- ===== src/Chord/Examples/Joining.antt =====
-- A node joins a ring of one.
use tda596_distributed_syste.Prelude.{inl, ◌≡◌, ◌≢◌, refl, some, [], ◌∷◌, String, length, arith}
use tda596_distributed_syste.Prelude.Text.{split}
use tda596_distributed_syste.Chord.Ring.{hash_id, between}
use tda596_distributed_syste.Chord.Node.{Node, create_chord}
use tda596_distributed_syste.Chord.Node.Creation.{alone_cases}
use tda596_distributed_syste.Chord.Net.{update, returned, crashed}
use tda596_distributed_syste.Chord.Routing.Lookup.{IsSuccessor}
use tda596_distributed_syste.Chord.Client.{join_chord}
use tda596_distributed_syste.Chord.Routing.Newcomer.{Unaware}
use tda596_distributed_syste.Chord.Client.Joining.{join_chord-IsSuccessor}
use tda596_distributed_syste.Chord.Notify.{notify_rpc}
use tda596_distributed_syste.Chord.Stabilize.{stablize}
use tda596_distributed_syste.Chord.Repair.{IsClosed, join_chord-stablize-IsClosed}
use tda596_distributed_syste.Chord.Examples.{
  by_length, node_at, founder, ring, ring-Settled, good_disk, ring-Distinct,
}

abbrev newcomer : Node
newcomer = node_at "ax" 2 "localhost:8000"

-- The only node names no address but its own.
ring-Unaware : (b : String) (m : Node) → ring b ≡ some m → Unaware "localhost:8000" m
unfolding create_chord
ring-Unaware b m e =
    let (at_ring, same) = alone_cases (create_chord founder) b m e in
    rw same (record {
      not_successor = refl;
      no_finger = (refl, (refl, (refl, (refl, (refl, (refl, tt))))));
    })

join_chord-IsSuccessor_example :
    (s : String) × IsSuccessor ring 2 s
    × (join_chord by_length good_disk 64
          (update ring "localhost:8000" newcomer)
          "localhost:8000"
          "localhost:8001"
        ≡ (
          notify_rpc by_length good_disk
              (update
                (update ring "localhost:8000" newcomer)
                "localhost:8000"
                (record newcomer { predecessor = ""; successors = s ∷ "" ∷ "" ∷ [] }))
              s
              "localhost:8000",
          returned,
        ))
join_chord-IsSuccessor_example =
    join_chord-IsSuccessor by_length good_disk 64 ring "localhost:8000" "localhost:8001" ""
      ("" ∷ "" ∷ []) newcomer (create_chord founder) ring-Settled ring-Unaware
      (unfold create_chord in refl) (unfold create_chord in refl) refl (omega arith)

newcomer_parts : length (split b':' "localhost:8000") ≡ 2
unfolding split
newcomer_parts = refl

newcomer_named : newcomer.identifier ≡ hash_id by_length newcomer.name
unfolding split
newcomer_named = refl

join_chord-stablize-IsClosed_example :
    let joined =
      join_chord by_length good_disk 64
        (update ring "localhost:8000" newcomer)
        "localhost:8000"
        "localhost:8001" in
    let r = stablize by_length good_disk joined.0 "localhost:8001" in
    (joined.1 ≡ returned)
    × (r.1 ≢ crashed)
    × IsClosed by_length "localhost:8001" "localhost:8000" "localhost:8001" r.0
join_chord-stablize-IsClosed_example =
    join_chord-stablize-IsClosed by_length good_disk 64 ring "localhost:8001" "localhost:8000"
      "localhost:8001" "localhost:8001" "" (create_chord founder) newcomer (create_chord founder)
      (create_chord founder) ("localhost:8001" ∷ "localhost:8001" ∷ []) ("" ∷ "" ∷ []) ring-Settled
      ring-Distinct ring-Unaware (unfold create_chord in refl) newcomer_parts refl newcomer_named
      refl (unfold create_chord in refl) (omega arith) (unfold create_chord in refl)
      (unfold create_chord in refl) (unfold create_chord in refl)
      (inl (unfold create_chord in refl)) (unfold create_chord between in refl)
      (unfold create_chord in omega arith)
