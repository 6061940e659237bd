-- ===== src/MapReduce/Shuffle/Laws.antt =====
-- About the outputs of all map tasks together, for worker.go.
use text.Mathlib.TextEquality.{eq_iff}
use tda596_distributed_syste.Prelude.{
  append_assoc, append-[], ℕ, zero, suc, ◌%◌, ◌<◌, ◌==◌, ==_iff, ◌≡◌, refl, ap, ◌∙◌, inl, inr,
  if◌then◌else◌, Bool-cases, Option, none, some, List, [], ◌∷◌, ◌++◌, map, String, length,
  get_elem?, set, replicate, get_elem?-set_self, get_elem?-set_ne, get_elem?_of_lt,
  lt-length_of_get_elem?, length-set, arith,
}
use tda596_distributed_syste.MapReduce.Shuffle.{
  KeyValue, ihash, encode, encode_all, write_map_output, collect, values_at,
}
use tda596_distributed_syste.MapReduce.Shuffle.Grouping.{
  joined, values_of, values_of-append, values_at-collect,
}

-- The pairs whose key belongs to a reduce task.
unfoldable pub for_task : (String → ℕ) → ℕ → ℕ → List KeyValue → List KeyValue
for_task fnv n r [] = []
for_task fnv n r (kv ∷ kvs) =
    let rest = for_task fnv n r kvs in if ihash fnv kv.key % n == r then kv ∷ rest else rest

-- The files afterwards: each with the pairs of its task appended.
abbrev Extended :
    (String → ℕ) → ℕ → List (List KeyValue) → List KeyValue → Option (List (List KeyValue)) → Type 0
Extended fnv n files kvs none = ⊥
Extended fnv n files kvs (some files') =
    (length files' ≡ length files)
    × ((r : ℕ) (f : List KeyValue)
        → get_elem? files r ≡ some f
        → get_elem? files' r ≡ some (f ++ for_task fnv n r kvs))

appended :
    (files : List (List KeyValue)) (id r : ℕ) (old f : List KeyValue) (kv : KeyValue)
    → get_elem? files id ≡ some old
    → get_elem? files r ≡ some f
    → get_elem? (set files id (old ++ kv ∷ [])) r ≡ some (f ++ (if id == r then kv ∷ [] else []))
appended files id r old f kv e er = elim (Bool-cases (id == r)) [
  | inl same ↦
      let is_r = (==_iff id r).0 same in
      ground (
        arith,
        get_elem?-set_self files id (old ++ kv ∷ []) (lt-length_of_get_elem? files id old e),
      )
  | inr other ↦
      let away = get_elem?-set_ne files id r (old ++ kv ∷ []) (λ is_r. ground arith) in
      ground (arith, append-[] f)
]

encode-Extended :
    (fnv : String → ℕ) (n : ℕ) (files : List (List KeyValue)) (kv : KeyValue)
    → 0 < n
    → length files ≡ n
    → Extended fnv n files (kv ∷ []) (encode fnv n files kv)
unfolding encode for_task
encode-Extended fnv zero files kv pos h = absurd (omega arith)
encode-Extended fnv (suc n) files kv pos h =
    let id = ihash fnv kv.key % suc n in
    let (old, e) = get_elem?_of_lt files id (omega arith) in
    rw (e, Extended)
      (length-set files id (old ++ kv ∷ []), λ r f er. appended files id r old f kv e er)

for_task-cons :
    (fnv : String → ℕ) (n r : ℕ) (kv : KeyValue) (kvs : List KeyValue)
    → for_task fnv n r (kv ∷ []) ++ for_task fnv n r kvs ≡ for_task fnv n r (kv ∷ kvs)
unfolding for_task
for_task-cons fnv n r kv kvs = ground arith

then-Extended :
    (fnv : String → ℕ) (n : ℕ) (files : List (List KeyValue)) (kv : KeyValue) (kvs : List KeyValue)
    (o : Option (List (List KeyValue)))
    → length files ≡ n
    → Extended fnv n files (kv ∷ []) o
    → ((files' : List (List KeyValue))
        → length files' ≡ n
        → Extended fnv n files' kvs (encode_all fnv n (some files') kvs))
    → Extended fnv n files (kv ∷ kvs) (encode_all fnv n o kvs)
then-Extended fnv n files kv kvs none h x k = elim x [ ]
then-Extended fnv n files kv kvs (some files') h (len, get) k =
    both (encode_all fnv n (some files') kvs) (k files' (len ∙ h))
  where
    both :
        (o : Option (List (List KeyValue)))
        → Extended fnv n files' kvs o
        → Extended fnv n files (kv ∷ kvs) o
    both none x = elim x [ ]
    both (some files'') (len', get') = (
      len' ∙ len,
      λ r f er.
          get' r (f ++ for_task fnv n r (kv ∷ [])) (get r f er)
          ∙ ap some (
              append_assoc f (for_task fnv n r (kv ∷ [])) (for_task fnv n r kvs)
              ∙ ap (λ x. f ++ x) (for_task-cons fnv n r kv kvs)),
    )

encode_all-Extended :
    (fnv : String → ℕ) (n : ℕ) (files : List (List KeyValue)) (kvs : List KeyValue)
    → 0 < n
    → length files ≡ n
    → Extended fnv n files kvs (encode_all fnv n (some files) kvs)
unfolding encode_all for_task
encode_all-Extended fnv n files [] pos h = (refl, λ r f er. ground (arith, append-[] f))
encode_all-Extended fnv n files (kv ∷ kvs) pos h =
    then-Extended fnv n files kv kvs (encode fnv n files kv) h
      (encode-Extended fnv n files kv pos h)
      (λ files' h'. encode_all-Extended fnv n files' kvs pos h')

length-replicate {ℓ} : {A : Type ℓ} (n : ℕ) (a : A) → length (replicate n a) ≡ n
length-replicate zero a = refl
length-replicate (suc n) a = ap suc (length-replicate n a)

get_elem?-replicate {ℓ} :
    {A : Type ℓ} (n i : ℕ) (a : A) → i < n → get_elem? (replicate n a) i ≡ some a
get_elem?-replicate zero i a h = absurd (omega arith)
get_elem?-replicate (suc n) zero a h = refl
get_elem?-replicate (suc n) (suc i) a h = get_elem?-replicate n i a (omega arith)

-- One file for each reduce task, with exactly the pairs whose key belongs to the task, in order.
abbrev pub Partitioned : (String → ℕ) → ℕ → List KeyValue → Option (List (List KeyValue)) → Type 0
Partitioned fnv n kvs none = ⊥
Partitioned fnv n kvs (some files) =
    (length files ≡ n) × ((r : ℕ) → r < n → get_elem? files r ≡ some (for_task fnv n r kvs))

Extended-Partitioned :
    (fnv : String → ℕ) (n : ℕ) (kvs : List KeyValue) (o : Option (List (List KeyValue)))
    → Extended fnv n (replicate n []) kvs o
    → Partitioned fnv n kvs o
Extended-Partitioned fnv n kvs none x = x
Extended-Partitioned fnv n kvs (some files) (len, get) =
    (len ∙ length-replicate n [], λ r h. get r [] (get_elem?-replicate n r [] h))

-- With at least one reduce task, a map task's output is written without a panic: one file for each
-- reduce task, with exactly the pairs whose key belongs to that task, in the order they were emitted.
pub write_map_output-Partitioned :
    (fnv : String → ℕ) (n : ℕ) (kvs : List KeyValue)
    → 0 < n
    → Partitioned fnv n kvs (write_map_output fnv n kvs)
unfolding write_map_output
write_map_output-Partitioned fnv n kvs pos =
    Extended-Partitioned fnv n kvs (encode_all fnv n (some (replicate n [])) kvs)
      (encode_all-Extended fnv n (replicate n []) kvs pos (length-replicate n []))

-- The files that reduce task `r` finds when each of these map outputs has been written.
unfoldable pub intermediate :
    (String → ℕ) → ℕ → ℕ → List (List KeyValue) → Option (List (List KeyValue))
intermediate fnv n r [] = some []
intermediate fnv n r (kvs ∷ outs) = elim (write_map_output fnv n kvs) [
  | none ↦ none
  | some files ↦ elim (get_elem? files r) [
    | none ↦ none
    | some f ↦ elim (intermediate fnv n r outs) [ none ↦ none | some fs ↦ some (f ∷ fs) ]
  ]
]

pub intermediate_lem :
    (fnv : String → ℕ) (n r : ℕ) (outs : List (List KeyValue))
    → r < n
    → intermediate fnv n r outs ≡ some (map (for_task fnv n r) outs)
unfolding intermediate
intermediate_lem fnv n r [] h = refl
intermediate_lem fnv n r (kvs ∷ outs) h =
    next (write_map_output fnv n kvs) refl (write_map_output-Partitioned fnv n kvs (omega arith))
      (intermediate_lem fnv n r outs h)
  where
    next :
        (o : Option (List (List KeyValue)))
        → write_map_output fnv n kvs ≡ o
        → Partitioned fnv n kvs o
        → intermediate fnv n r outs ≡ some (map (for_task fnv n r) outs)
        → intermediate fnv n r (kvs ∷ outs) ≡ some (map (for_task fnv n r) (kvs ∷ outs))
    next none e x rest = elim x [ ]
    next (some files) e (len, get) rest = ground (arith, e, get r h, rest)

values_of-for_task :
    (fnv : String → ℕ) (n r : ℕ) (key : String) (kvs : List KeyValue)
    → values_of key (for_task fnv n r kvs)
      ≡ (if ihash fnv key % n == r then values_of key kvs else [])
unfolding values_of for_task
values_of-for_task fnv n r key [] = ground arith
values_of-for_task fnv n r key (kv ∷ kvs) =
    ground (arith, eq_iff kv.key key, hash_eq fnv kv.key key, values_of-for_task fnv n r key kvs)
  where
    hash_eq : (fnv : String → ℕ) (a b : String) → a ≡ b → ihash fnv a ≡ ihash fnv b
    hash_eq fnv a b e = ap (ihash fnv) e

pub values_of-joined :
    (fnv : String → ℕ) (n r : ℕ) (key : String) (outs : List (List KeyValue))
    → values_of key (joined (map (for_task fnv n r) outs))
      ≡ (if ihash fnv key % n == r then values_of key (joined outs) else [])
unfolding joined
values_of-joined fnv n r key [] = unfold values_of in ground arith
values_of-joined fnv n r key (kvs ∷ outs) = ground (
  arith,
  values_of-append key (for_task fnv n r kvs) (joined (map (for_task fnv n r) outs)),
  values_of-append key kvs (joined outs),
  values_of-for_task fnv n r key kvs,
  values_of-joined fnv n r key outs,
)

-- The shuffle: when the outputs of any map tasks are written for `n` reduce tasks, the files that
-- reduce task `r` finds group under each key that belongs to the task all the values that any map
-- task emitted for it, in the order of the map tasks, and nothing under the other keys.
pub shuffle_complete :
    (fnv : String → ℕ) (n r : ℕ) (outs : List (List KeyValue)) (key : String)
    → r < n
    → (files : List (List KeyValue)) × (intermediate fnv n r outs ≡ some files)
      × (values_at (collect [] files) key
          ≡ (if ihash fnv key % n == r then values_of key (joined outs) else []))
shuffle_complete fnv n r outs key h = (
  map (for_task fnv n r) outs,
  intermediate_lem fnv n r outs h,
  values_at-collect (map (for_task fnv n r) outs) key ∙ values_of-joined fnv n r key outs,
)
