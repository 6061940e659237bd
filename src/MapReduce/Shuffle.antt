-- ===== src/MapReduce/Shuffle.antt =====
-- Lab3/src/mr/worker.go: how the pairs that the map tasks emit reach the reduce tasks. The
-- intermediate files are lists of pairs; JSON, temporary names, renaming and HTTP are left out.
pub mod Grouping
pub mod Laws
use text.Mathlib.Text.{◌==◌ as str_eq}
use tda596_distributed_syste.Prelude.{
  ℕ, zero, suc, ◌+◌, ◌%◌, ◌^◌, ◌==◌, if◌then◌else◌, Bool, Option, none, some, List, [], ◌∷◌, ◌++◌,
  map, String, get_elem?, set, replicate,
}
use tda596_distributed_syste.Prelude.Text.{◌&◌}

pub record KeyValue : Type 0 where
  pub key : String
  pub value : String

-- An entry of `kvMap`.
pub record Group : Type 0 where
  pub key : String
  pub values : List String

-- `fnv` is the 32-bit number that `hash/fnv` makes of a key.
module _ (fnv : String → ℕ) where
  -- `int(h.Sum32() & 0x7fffffff)`
  abbrev pub ihash : String → ℕ
  ihash key = fnv key % 2 ^ 31

  -- `encoders[id].Encode(&kv)` at `ihash(kv.Key) % nReduce`; `none` is a panic, by a division by zero
  -- or an index out of range.
  encode : ℕ → List (List KeyValue) → KeyValue → Option (List (List KeyValue))
  encode zero files kv = none
  encode (suc n) files kv =
      let id = ihash kv.key % suc n in
      elim (get_elem? files id) [ none ↦ none | some f ↦ some (set files id (f ++ kv ∷ [])) ]

  encode_all : ℕ → Option (List (List KeyValue)) → List KeyValue → Option (List (List KeyValue))
  encode_all n none kvs = none
  encode_all n (some files) [] = some files
  encode_all n (some files) (kv ∷ kvs) = encode_all n (encode n files kv) kvs

  -- `writeMapOutput`: the `nReduce` files of a map task.
  pub write_map_output : ℕ → List KeyValue → Option (List (List KeyValue))
  write_map_output n kvs = encode_all n (some (replicate n [])) kvs

-- `kvMap[kv.Key] = append(kvMap[kv.Key], kv.Value)`
pub add_value : List Group → KeyValue → List Group
add_value [] kv = record { key = kv.key; values = kv.value ∷ [] } ∷ []
add_value (g ∷ gs) kv =
    if str_eq g.key kv.key
    then record { key = g.key; values = g.values ++ kv.value ∷ [] } ∷ gs
    else g ∷ add_value gs kv

-- The loop over a decoder.
collect_file : List Group → List KeyValue → List Group
collect_file groups [] = groups
collect_file groups (kv ∷ kvs) = collect_file (add_value groups kv) kvs

-- The loop over the files in `doReduce`.
pub collect : List Group → List (List KeyValue) → List Group
unfolding collect_file
collect groups [] = groups
collect groups (f ∷ fs) = collect (collect_file groups f) fs

-- `kvMap[key]`
pub values_at : List Group → String → List String
values_at [] key = []
values_at (g ∷ gs) key = if str_eq g.key key then g.values else values_at gs key

-- The lines of `writeReduceOutput`, a key and its value each; `sort_strings` is `sort.Strings`.
pub reduce_lines :
    (List String → List String)
    → (String → List String → String)
    → List Group
    → List (String × String)
reduce_lines sort_strings reducef groups =
    map (λ key. (key, reducef key (values_at groups key))) (sort_strings (map (λ g. g.key) groups))

pub print_lines : List (String × String) → String
print_lines [] = ""
print_lines ((key, value) ∷ rest) = key & " " & value & "\n" & print_lines rest

-- `doReduce` on the files that it finds: the text of its output file.
pub do_reduce :
    (List String → List String) → (String → List String → String) → List (List KeyValue) → String
unfolding print_lines
do_reduce sort_strings reducef files =
    print_lines (reduce_lines sort_strings reducef (collect [] files))
