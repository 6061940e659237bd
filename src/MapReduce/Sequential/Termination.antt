-- ===== src/MapReduce/Sequential/Termination.antt =====
-- The loops of the sequential program end.
use tda596_distributed_syste.Prelude.{
  is_some, ℕ, zero, suc, ◌≤◌, ◌≡◌, refl, if◌then◌else◌, Bool, true, false, inl, inr, Option-cases,
  Option, none, some, List, [], ◌∷◌, String, length, arith,
}
use tda596_distributed_syste.MapReduce.Shuffle.{KeyValue}
use tda596_distributed_syste.MapReduce.Sequential.{
  gather, split_run, cons_line, key_lines, sequential_lines,
}

abbrev pub all_readable : List (String × Option String) → Bool
all_readable [] = true
all_readable ((filename, content) ∷ inputs) = if is_some content then all_readable inputs else false

length-split_run : (key : String) (kvs : List KeyValue) → length (split_run key kvs).1 ≤ length kvs
unfolding split_run
length-split_run key [] = omega arith
length-split_run key (kv ∷ kvs) = ground (arith, length-split_run key kvs)

is_some-cons_line :
    (line : String × String) (o : Option (List (String × String)))
    → is_some (cons_line line o) ≡ is_some o
unfolding cons_line
is_some-cons_line line none = refl
is_some-cons_line line (some lines) = refl

key_lines_returns :
    (reducef : String → List String → String) (fuel : ℕ) (kvs : List KeyValue)
    → length kvs ≤ fuel
    → is_some (key_lines reducef fuel kvs) ≡ true
unfolding key_lines
key_lines_returns reducef fuel [] h = refl
key_lines_returns reducef zero (kv ∷ kvs) h = absurd (omega arith)
key_lines_returns reducef (suc fuel) (kv ∷ kvs) h =
    let (values, rest) = split_run kv.key kvs in
    rw
      (is_some-cons_line (kv.key, reducef kv.key (kv.value ∷ values)) (key_lines reducef fuel rest))
      (key_lines_returns reducef fuel rest (omega (arith, length-split_run kv.key kvs)))

is_some-gather :
    (mapf : String → String → List KeyValue) (inputs : List (String × Option String))
    → is_some (gather mapf inputs) ≡ all_readable inputs
unfolding gather
is_some-gather mapf [] = refl
is_some-gather mapf ((filename, none) ∷ inputs) = refl
is_some-gather mapf ((filename, some content) ∷ inputs) = ground (arith, is_some-gather mapf inputs)

-- The sequential program ends with an output exactly when every input file can be opened and read,
-- whatever the sort and the map and reduce functions do: the number of pairs is enough rounds for its
-- loop over the runs of equal keys.
pub sequential_lines_returns :
    (sort_pairs : List KeyValue → List KeyValue) (mapf : String → String → List KeyValue)
    (reducef : String → List String → String) (inputs : List (String × Option String))
    → is_some (sequential_lines sort_pairs mapf reducef inputs) ≡ all_readable inputs
unfolding sequential_lines
sequential_lines_returns sort_pairs mapf reducef inputs =
    let readable = is_some-gather mapf inputs in
    elim (Option-cases (gather mapf inputs)) [
      | inl e ↦ ground (arith, e, readable)
      | inr (kvs, e) ↦
          let sorted = sort_pairs kvs in
          let ends = key_lines_returns reducef (length sorted) sorted (omega arith) in
          ground (arith, e, readable, ends)
    ]
