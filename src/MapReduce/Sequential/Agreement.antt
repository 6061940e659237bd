-- ===== src/MapReduce/Sequential/Agreement.antt =====
-- The sequential program beside the coordinator and its workers, for mrsequential.go and worker.go.
use text.Mathlib.Text.{◌==◌ as str_eq}
use text.Mathlib.TextEquality.{eq_iff}
use mathlib.Core.List.{Perm, filter_map}
use mathlib.Core.List.Perm
use tda596_distributed_syste.Prelude.{
  ℕ, ◌<◌, ◌==◌, ◌%◌, ◌≡◌, refl, sym, ap, ◌∙◌, if◌then◌else◌, Option, none, some, List, [], ◌∷◌, map,
  String, length, count_if, arith,
}
use tda596_distributed_syste.MapReduce.Shuffle.{KeyValue, ihash, collect, reduce_lines}
use tda596_distributed_syste.MapReduce.Shuffle.Grouping.{
  joined, values_of, occurs, count_if-map, reduce_lines-collect,
}
use tda596_distributed_syste.MapReduce.Shuffle.Laws.{
  intermediate, intermediate_lem, for_task, values_of-joined,
}
use tda596_distributed_syste.MapReduce.Sequential.{gather, sequential_lines}
use tda596_distributed_syste.MapReduce.Sequential.Runs.{
  IsOrdered, IsReduced, line_for, reduced, lines_with, key_lines-IsReduced,
}

abbrev value_at : String → KeyValue → Option String
value_at key kv = if str_eq kv.key key then some kv.value else none

filter_map-value_at :
    (key : String) (kvs : List KeyValue) → filter_map (value_at key) kvs ≡ values_of key kvs
unfolding values_of filter_map
filter_map-value_at key [] = refl
filter_map-value_at key (kv ∷ kvs) = ground (arith, filter_map-value_at key kvs)

values_of-perm :
    (key : String) (xs ys : List KeyValue) → Perm xs ys → Perm (values_of key xs) (values_of key ys)
values_of-perm key xs ys p =
    rw (sym (filter_map-value_at key xs), sym (filter_map-value_at key ys))
      (Perm.filter_map (value_at key) p)

reduced-perm :
    (reducef : String → List String → String) (key : String) (vs ws : List String)
    → ((k : String) (vs ws : List String) → Perm vs ws → reducef k vs ≡ reducef k ws)
    → Perm vs ws
    → (reduced reducef key vs ≡ reduced reducef key ws) × (lines_with vs ≡ lines_with ws)
reduced-perm reducef key [] [] same p = (refl, refl)
reduced-perm reducef key [] (w ∷ ws) same p = ground (arith, Perm.nil-eq p)
reduced-perm reducef key (v ∷ vs) [] same p = ground (arith, Perm.eq-nil p)
reduced-perm reducef key (v ∷ vs) (w ∷ ws) same p = (ap some (same key (v ∷ vs) (w ∷ ws) p), refl)

occurs-lines_with :
    (key : String) (kvs : List KeyValue)
    → (if occurs key kvs then 1 else 0) ≡ lines_with (values_of key kvs)
unfolding occurs values_of
occurs-lines_with key [] = refl
occurs-lines_with key (kv ∷ kvs) = ground (arith, occurs-lines_with key kvs)

line_for-map :
    (f : String → String) (key : String) (keys : List String)
    → line_for key (map (λ k. (k, f k)) keys)
      ≡ (if count_if (λ k. str_eq k key) keys == 0 then none else some (f key))
unfolding line_for
line_for-map f key [] = refl
line_for-map f key (k ∷ keys) = ground (arith, eq_iff k key, ap f, line_for-map f key keys)

gather-readable :
    (mapf : String → String → List KeyValue) (inputs : List (String × String))
    → gather mapf (map (λ (filename, content). (filename, some content)) inputs)
      ≡ some (joined (map (λ (filename, content). mapf filename content) inputs))
unfolding gather joined
gather-readable mapf [] = refl
gather-readable mapf ((filename, content) ∷ inputs) = rw (gather-readable mapf inputs, gather) refl

reduced_of_count :
    (reducef : String → List String → String) (key : String) (vs : List String) (m : ℕ)
    → m ≡ lines_with vs
    → (if m == 0 then none else some (reducef key vs)) ≡ reduced reducef key vs
reduced_of_count reducef key [] m e = ground arith
reduced_of_count reducef key (v ∷ vs) m e = ground arith

-- What the lines of a reduce task say of a key, and how many have it.
pub task_lines :
    (sort_strings : List String → List String) (reducef : String → List String → String)
    (fnv : String → ℕ) (n r : ℕ) (outs : List (List KeyValue)) (key : String)
    → ((k : String) (xs : List String)
        → count_if (λ x. str_eq x k) (sort_strings xs) ≡ count_if (λ x. str_eq x k) xs)
    → let lines = reduce_lines sort_strings reducef (collect [] (map (for_task fnv n r) outs)) in
      let values = if ihash fnv key % n == r then values_of key (joined outs) else [] in
      (line_for key lines ≡ reduced reducef key values)
      × (count_if (λ (k, _). str_eq k key) lines ≡ lines_with values)
task_lines sort_strings reducef fnv n r outs key sorts =
    let files = map (for_task fnv n r) outs in
    let keys = sort_strings (map (λ g. g.key) (collect [] files)) in
    let f : String → String = λ k. reducef k (values_of k (joined files)) in
    let (times, lines) = reduce_lines-collect sort_strings reducef files key sorts in
    let counted = times ∙ occurs-lines_with key (joined files) in
    let in_task = values_of-joined fnv n r key outs in
    let mapped = count_if-map (λ (k, _). str_eq k key) (λ k. (k, f k)) keys in
    let one = sym mapped ∙ ap (count_if (λ (k, _). str_eq k key)) (sym lines) ∙ counted in
    (
      ap (line_for key) lines
          ∙ line_for-map f key keys
          ∙ reduced_of_count reducef key (values_of key (joined files))
              (count_if (λ k. str_eq k key) keys) one
          ∙ ap (reduced reducef key) in_task,
      counted ∙ ap lines_with in_task,
    )

-- What the sequential program does with readable files.
sequential_lines-IsReduced :
    (sort_pairs : List KeyValue → List KeyValue) (mapf : String → String → List KeyValue)
    (reducef : String → List String → String) (inputs : List (String × String))
    → ((kvs : List KeyValue) → IsOrdered (sort_pairs kvs))
    → IsReduced reducef
        (sort_pairs (joined (map (λ (filename, content). mapf filename content) inputs)))
        (sequential_lines sort_pairs mapf reducef
          (map (λ (filename, content). (filename, some content)) inputs))
unfolding sequential_lines
sequential_lines-IsReduced sort_pairs mapf reducef inputs ordered =
    let sorted = sort_pairs (joined (map (λ (filename, content). mapf filename content) inputs)) in
    rw (gather-readable mapf inputs, sequential_lines)
      (key_lines-IsReduced reducef (length sorted) sorted (omega arith)
        (ordered (joined (map (λ (filename, content). mapf filename content) inputs))))

-- The lines of a reduce task beside those of the sequential program, for one key.
abbrev pub SaysTheSame :
    (String → ℕ) → ℕ → ℕ → String → List (String × String) → List (String × String) → Type 0
SaysTheSame fnv n r key lines task =
    (line_for key task ≡ (if ihash fnv key % n == r then line_for key lines else none))
    × (count_if (λ (k, _). str_eq k key) task
        ≡ (if ihash fnv key % n == r then count_if (λ (k, _). str_eq k key) lines else 0))

-- The sequential program and the distributed one agree: on readable input files, for a sort that
-- orders the pairs by key and keeps them, a sort of the keys that keeps how often each occurs, and a
-- reduce function that does not depend on the order of the values, the sequential program gives an
-- output and every reduce task finds its files; of each key, the output of the reduce task that the
-- key belongs to says what the sequential output says and in as many lines, and the outputs of the
-- other reduce tasks say nothing.
pub distributed-eq-sequential :
    (sort_pairs : List KeyValue → List KeyValue) (sort_strings : List String → List String)
    (mapf : String → String → List KeyValue) (reducef : String → List String → String)
    (fnv : String → ℕ) (n r : ℕ) (inputs : List (String × String)) (key : String)
    → ((kvs : List KeyValue) → IsOrdered (sort_pairs kvs))
    → ((kvs : List KeyValue) → Perm (sort_pairs kvs) kvs)
    → ((k : String) (xs : List String)
        → count_if (λ x. str_eq x k) (sort_strings xs) ≡ count_if (λ x. str_eq x k) xs)
    → ((k : String) (vs ws : List String) → Perm vs ws → reducef k vs ≡ reducef k ws)
    → r < n
    → (lines : List (String × String)) × (files : List (List KeyValue)) × (sequential_lines
          sort_pairs mapf reducef
          (map (λ (filename, content). (filename, some content)) inputs)
        ≡ some lines)
      × (intermediate fnv n r (map (λ (filename, content). mapf filename content) inputs)
          ≡ some files)
      × SaysTheSame fnv n r key lines (reduce_lines sort_strings reducef (collect [] files))
distributed-eq-sequential sort_pairs sort_strings mapf reducef fnv n r inputs key ordered kept sorts
      same h =
    go
      (sequential_lines sort_pairs mapf reducef
        (map (λ (filename, content). (filename, some content)) inputs))
      refl (sequential_lines-IsReduced sort_pairs mapf reducef inputs ordered)
  where
    go :
        (o : Option (List (String × String)))
        → sequential_lines sort_pairs mapf reducef
            (map (λ (filename, content). (filename, some content)) inputs)
          ≡ o
        → IsReduced reducef
            (sort_pairs (joined (map (λ (filename, content). mapf filename content) inputs)))
            o
        → (lines : List (String × String)) × (files : List (List KeyValue)) × (sequential_lines
              sort_pairs mapf reducef
              (map (λ (filename, content). (filename, some content)) inputs)
            ≡ some lines)
          × (intermediate fnv n r (map (λ (filename, content). mapf filename content) inputs)
              ≡ some files)
          × SaysTheSame fnv n r key lines (reduce_lines sort_strings reducef (collect [] files))
    go none e is_reduced = absurd is_reduced
    go (some lines) e is_reduced =
        let outs = map (λ (filename, content). mapf filename content) inputs in
        let (said, times) = task_lines sort_strings reducef fnv n r outs key sorts in
        let moved =
          reduced-perm reducef key (values_of key (sort_pairs (joined outs)))
            (values_of key (joined outs)) same
            (values_of-perm key (sort_pairs (joined outs)) (joined outs) (kept (joined outs))) in
        (
          lines,
          map (for_task fnv n r) outs,
          e,
          intermediate_lem fnv n r outs h,
          (
            said ∙ ground (arith, (is_reduced key).0, moved.0),
            times ∙ ground (arith, (is_reduced key).1, moved.1),
          ),
        )
