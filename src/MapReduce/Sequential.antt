-- ===== src/MapReduce/Sequential.antt =====
-- Lab3/src/main/mrsequential.go: MapReduce in one process, without a coordinator.
pub mod Runs
pub mod Termination
pub mod Agreement
mod Examples
use text.Mathlib.Text.{◌==◌ as str_eq}
use tda596_distributed_syste.Prelude.{
  ℕ, zero, suc, if◌then◌else◌, Bool, Option, none, some, List, [], ◌∷◌, ◌++◌, String, length,
}
use tda596_distributed_syste.Prelude.TextOrder.{text_lt}
use tda596_distributed_syste.MapReduce.Shuffle.{KeyValue, print_lines}

-- `ByKey.Less`.
abbrev pub less : KeyValue → KeyValue → Bool
less a b = text_lt a.key b.key

-- The first loop, over the input files with their contents; a file that cannot be opened or read is
-- fatal.
pub gather :
    (String → String → List KeyValue) → List (String × Option String) → Option (List KeyValue)
gather mapf [] = some []
gather mapf ((filename, none) ∷ inputs) = none
gather mapf ((filename, some content) ∷ inputs) = elim (gather mapf inputs) [
  | none ↦ none
  | some rest ↦ some (mapf filename content ++ rest)
]

-- The inner loops: the values of the pairs that follow with the same key, and what comes after them.
split_run : String → List KeyValue → List String × List KeyValue
split_run key [] = ([], [])
split_run key (kv ∷ kvs) =
    let (values, rest) = split_run key kvs in
    if str_eq kv.key key then (kv.value ∷ values, rest) else ([], kv ∷ kvs)

cons_line : String × String → Option (List (String × String)) → Option (List (String × String))
cons_line line none = none
cons_line line (some lines) = some (line ∷ lines)

-- The outer loop on fuel, with a line for each run; `none` means that the fuel ran out.
pub key_lines :
    (String → List String → String) → ℕ → List KeyValue → Option (List (String × String))
unfolding split_run cons_line
key_lines reducef fuel [] = some []
key_lines reducef zero (kv ∷ kvs) = none
key_lines reducef (suc fuel) (kv ∷ kvs) =
    let (values, rest) = split_run kv.key kvs in
    cons_line (kv.key, reducef kv.key (kv.value ∷ values)) (key_lines reducef fuel rest)

-- The program up to its output file: the lines of `mr-out-0`. `sort_pairs` is `sort.Sort(ByKey(…))`.
pub sequential_lines :
    (List KeyValue → List KeyValue)
    → (String → String → List KeyValue)
    → (String → List String → String)
    → List (String × Option String)
    → Option (List (String × String))
sequential_lines sort_pairs mapf reducef inputs = elim (gather mapf inputs) [
  | none ↦ none
  | some kvs ↦ let sorted = sort_pairs kvs in key_lines reducef (length sorted) sorted
]
