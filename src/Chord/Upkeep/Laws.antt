-- ===== src/Chord/Upkeep/Laws.antt =====
-- The periodic tasks of Lab2/Node on a ring that is in order.
use tda596_distributed_syste.Prelude.{
  ℕ, suc, ◌<◌, ◌≡◌, ◌≢◌, refl, ap, ◌∙◌, Bool, inl, inr, true, Option, none, some, List, [], ◌∷◌,
  String, length, arith,
}
use tda596_distributed_syste.Chord.Node.{Node}
use tda596_distributed_syste.Chord.Net.{
  End, returned, failed, crashed, waiting, Net, update, chord_call, ok,
}
use tda596_distributed_syste.Chord.Pointers.{Pointers, place, can_dial}
use tda596_distributed_syste.Chord.Routing.Lookup.{chord_call_ok, chord_call_inv}
use tda596_distributed_syste.Chord.Storage.{Disk, check_predecessor}
use tda596_distributed_syste.Chord.Storage.Pointers.{Checked, check_predecessor-Checked}
use tda596_distributed_syste.Chord.Stabilize.{stablize}
use tda596_distributed_syste.Chord.Stabilize.Stability.{stablize_stays}
use tda596_distributed_syste.Chord.Fingers.{fix_fingers}
use tda596_distributed_syste.Chord.Fingers.Soundness.{HasFingers, fix_fingers-Sound}
use tda596_distributed_syste.Chord.Fingers.Anchors.{anchor, fix_fingers-anchor}
use tda596_distributed_syste.Chord.Upkeep.{
  Task, stabilizing, fixing_fingers, checking_predecessor, Tick, unless_crashed, run_task, tick,
  run_ticks,
}
use tda596_distributed_syste.Chord.Upkeep.Health.{
  IsHealthy, KeepsPlaces-IsHealthy, update-IsHealthy, place-HasFingers,
}

-- What goes on after a task.
abbrev pub Healthy : (String → ℕ) → ℕ → Option Net → Type 0
Healthy str_hash k none = ⊥
Healthy str_hash k (some net) = IsHealthy str_hash k net

still_runs :
    (str_hash : String → ℕ) (k : ℕ) (o : Option Net)
    → Healthy str_hash k o
    → (net : Net) × (o ≡ some net) × IsHealthy str_hash k net
still_runs str_hash k none h = elim h [ ]
still_runs str_hash k (some net) h = (net, refl, h)

unless_crashed-Healthy :
    (str_hash : String → ℕ) (k : ℕ) (e : End) (net : Net)
    → e ≢ crashed
    → IsHealthy str_hash k net
    → Healthy str_hash k (unless_crashed e net)
unless_crashed-Healthy str_hash k returned net ends h = h
unless_crashed-Healthy str_hash k failed net ends h = h
unless_crashed-Healthy str_hash k waiting net ends h = h
unless_crashed-Healthy str_hash k crashed net ends h = absurd (ends refl)

module _ (str_hash : String → ℕ) (k : ℕ) (net : Net) (p : String) (node : Node)
    (healthy : IsHealthy str_hash k net) (here : net p ≡ some node) where
  stablize-Healthy :
      (disk : Disk)
      → Healthy str_hash k
          (unless_crashed (stablize str_hash disk net p).1 (stablize str_hash disk net p).0)
  stablize-Healthy disk =
      let h = healthy.settled p node here in
      let o = healthy.ordinary p node here in
      let s = h.successor in
      let n = h.successor_node in
      let there = h.successor_runs in
      let called = chord_call_ok net s n (healthy.settled s n there).callable there in
      let size : length node.successors ≡ suc (length h.others) = ap length h.successor_first in
      let (others, len, steady) =
        stablize_stays str_hash disk net p s node n h.others here h.successor_first called
          (omega (arith, size, o.list_length, (healthy.ordinary s n there).list_length))
          (λ b r e. ground (
            arith,
            h.adjacent b r e,
            h.identified,
            (healthy.settled b r e).identified,
            (healthy.settled s n there).identified,
          ))
          healthy.dialled (ground (arith, o.own_address, h.callable)) in
      unless_crashed-Healthy str_hash k (stablize str_hash disk net p).1
        (stablize str_hash disk net p).0 steady.2
        (KeepsPlaces-IsHealthy str_hash k (update net p (record node { successors = s ∷ others }))
          (stablize str_hash disk net p).0
          (update-IsHealthy str_hash k net p s node (record node { successors = s ∷ others })
            h.others others healthy here refl refl h.successor_first refl
            (healthy.dialled p node here)
            (record {
              own_address = o.own_address;
              list_length = omega (arith, size, len, o.list_length);
              fingers = record {
                size = o.fingers.size;
                ids = o.fingers.ids;
                in_table = o.fingers.in_table;
              };
            }))
          steady.0 steady.1)

  -- A node that is written back with other fingers.
  fingers-Healthy :
      (node' : Node) (e : End)
      → anchor node' ≡ anchor node
      → HasFingers node'
      → e ≢ crashed
      → Healthy str_hash k (unless_crashed e (update net p node'))
  fingers-Healthy node' e same fingers ends =
      let h = healthy.settled p node here in
      let o = healthy.ordinary p node here in
      unless_crashed-Healthy str_hash k e (update net p node') ends (
        update-IsHealthy str_hash k net p h.successor node node' h.others h.others healthy here
          (ap (λ (q : Pointers). q.name) same) (ap (λ (q : Pointers). q.identifier) same)
          h.successor_first (ap (λ (q : Pointers). q.successors) same ∙ h.successor_first)
          (ap (λ (q : Pointers). can_dial q.predecessor) same ∙ healthy.dialled p node here)
          (record {
            own_address = ap (λ (q : Pointers). q.address) same ∙ o.own_address;
            list_length = ap (λ (q : Pointers). length q.successors) same ∙ o.list_length;
            fingers = fingers;
          }))

  successor_there : (n : Node) → net node.address ≡ some n → 0 < length n.successors
  successor_there n e = rw (healthy.settled node.address n e).successor_first (omega arith)

  fix_fingers-Healthy :
      (fuel : ℕ)
      → Healthy str_hash k (
          unless_crashed
            (fix_fingers str_hash fuel net node).1
            (update net p (fix_fingers str_hash fuel net node).0))
  fix_fingers-Healthy fuel =
      let room : (n : Node) → chord_call net node.address ≡ ok n → 0 < length n.successors =
        λ n e. successor_there n (chord_call_inv net node.address n e) in
      let sound =
        fix_fingers-Sound str_hash fuel net node (healthy.ordinary p node here).fingers room in
      fingers-Healthy (fix_fingers str_hash fuel net node).0 (fix_fingers str_hash fuel net node).1
        (fix_fingers-anchor str_hash fuel net node) sound.fingers
        (λ crash. elim sound.ends [
          | inl e ↦ cc (e, crash)
          | inr (inl e) ↦ cc (e, crash)
          | inr (inr (e, _)) ↦ cc (e, crash)
        ])

  placed-IsHealthy :
      (node' : Node)
      → place node' ≡ place node
      → can_dial node'.predecessor ≡ true
      → IsHealthy str_hash k (update net p node')
  placed-IsHealthy node' same good =
      let h = healthy.settled p node here in
      let o = healthy.ordinary p node here in
      update-IsHealthy str_hash k net p h.successor node node' h.others h.others healthy here
        (ap (λ (q : Pointers). q.name) same) (ap (λ (q : Pointers). q.identifier) same)
        h.successor_first (ap (λ (q : Pointers). q.successors) same ∙ h.successor_first) good
        (record {
          own_address = ap (λ (q : Pointers). q.address) same ∙ o.own_address;
          list_length = ap (λ (q : Pointers). length q.successors) same ∙ o.list_length;
          fingers = place-HasFingers node node' same o.fingers;
        })

  predecessor-Healthy :
      (o : Option Node)
      → Checked node o
      → Healthy str_hash k (elim o [ none ↦ none | some node' ↦ some (update net p node') ])
  predecessor-Healthy none c = elim c [ ]
  predecessor-Healthy (some node') (inl same) =
      placed-IsHealthy node' (ap (λ (q : Pointers). record q { predecessor = "" }) same)
        (ap (λ (q : Pointers). can_dial q.predecessor) same ∙ healthy.dialled p node here)
  predecessor-Healthy (some node') (inr same) =
      placed-IsHealthy node' (ap (λ (q : Pointers). record q { predecessor = "" }) same)
        (ap (λ (q : Pointers). can_dial q.predecessor) same ∙ refl)

  run_task-Healthy :
      (disk : Disk) (fuel : ℕ) (dial : String → Bool) (local_address : String) (t : Task)
      → Healthy str_hash k (run_task str_hash disk fuel dial local_address net p node t)
  unfolding run_task
  run_task-Healthy disk fuel dial local_address stabilizing = stablize-Healthy disk
  run_task-Healthy disk fuel dial local_address fixing_fingers = fix_fingers-Healthy fuel
  run_task-Healthy disk fuel dial local_address checking_predecessor =
      predecessor-Healthy (check_predecessor dial local_address node)
        (check_predecessor-Checked dial local_address node (healthy.dialled p node here))

module _ (str_hash : String → ℕ) (disk : Disk) (fuel k : ℕ) (dial : String → Bool)
    (local_address : String) where
  tick-Healthy :
      (net : Net) (t : Tick)
      → IsHealthy str_hash k net
      → Healthy str_hash k (tick str_hash disk fuel dial local_address net t)
  unfolding tick
  tick-Healthy net t healthy = by_node (net t.address) refl
    where
      by_node :
          (o : Option Node)
          → net t.address ≡ o
          → Healthy str_hash k (elim o [
            | none ↦ some net
            | some node ↦ run_task str_hash disk fuel dial local_address net t.address node t.task
          ])
      by_node none here = healthy
      by_node (some node) here =
          run_task-Healthy str_hash k net t.address node healthy here disk fuel dial local_address
            t.task

  -- The ring stays in order: on a network where each node's first successor is right, all lists have
  -- one length, each node listens at its own address with a well-formed finger table, and
  -- predecessors can be dialled, the periodic tasks of any nodes in any order run without a panic,
  -- and all of this still holds afterwards.
  pub run_ticks-IsHealthy :
      (net : Net) (ts : List Tick)
      → IsHealthy str_hash k net
      → (net' : Net) × (run_ticks str_hash disk fuel dial local_address net ts ≡ some net')
        × IsHealthy str_hash k net'
  unfolding run_ticks
  run_ticks-IsHealthy net [] healthy = (net, refl, healthy)
  run_ticks-IsHealthy net (t ∷ ts) healthy =
      let next = tick str_hash disk fuel dial local_address net t in
      let (net', e, healthy') = still_runs str_hash k next (tick-Healthy net t healthy) in
      let (net'', e', healthy'') = run_ticks-IsHealthy net' ts healthy' in
      let ran =
        ap {B = Option Net}
          (λ o. elim o [
            | none ↦ none
            | some n ↦ run_ticks str_hash disk fuel dial local_address n ts
          ])
          e in
      (net'', ran ∙ e', healthy'')
