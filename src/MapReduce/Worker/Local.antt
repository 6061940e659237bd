-- ===== src/MapReduce/Worker/Local.antt =====
-- Tasks that keep what worker.go writes: the outputs of the map tasks, as writeMapOutput splits them, and
-- the texts of the reduce tasks, as doReduce makes them, each by the number of its task. Names of files,
-- and files of an earlier run, are left out.
use tda596_distributed_syste.Prelude.{
  ℕ, zero, suc, ◌+◌, ◌<◌, ◌≡◌, ◌==◌, ==_iff, refl, sym, ap, ◌∙◌, inl, inr, false, Bool-cases,
  if◌then◌else◌, Option, none, some, List, [], ◌∷◌, map, String, length, get_elem?,
  lt-length_of_get_elem?, arith,
}
use tda596_distributed_syste.Prelude.Int.{ℤ, pos, negsuc}
use mathlib.Core.Option.{some-injective}
use mathlib.Core.Path.{subst}
use tda596_distributed_syste.MapReduce.Coordinator.{Task, Coordinator}
use tda596_distributed_syste.MapReduce.Shuffle.{KeyValue, write_map_output, do_reduce}
use tda596_distributed_syste.MapReduce.Shuffle.Laws.{for_task, intermediate, intermediate_lem}
use tda596_distributed_syste.MapReduce.Worker.Delivery.{Effects}

-- What stands under the numbers of map tasks, and under those of reduce tasks.
pub record Store : Type 0 where
  pub outputs : ℕ → Option (List (List KeyValue))
  pub results : ℕ → Option String

abbrev put {ℓ} : {A : Type ℓ} → (ℕ → A) → ℕ → A → ℕ → A
put f i a j = if i == j then a else f j

put_self {ℓ} : {A : Type ℓ} (f : ℕ → A) (i : ℕ) (a : A) → put f i a i ≡ a
put_self f i a = ground arith

put_other {ℓ} : {A : Type ℓ} (f : ℕ → A) (i j : ℕ) (a : A) → (i == j) ≡ false → put f i a j ≡ f j
put_other f i j a h = rw h refl

module _ (fnv : String → ℕ) (sort_strings : List String → List String)
    (mapf : String → List KeyValue) (reducef : String → List String → String)
    (c : Coordinator) where
  abbrev pub map_locally : Store → String → ℤ → Store
  map_locally s file (pos i) = record s {
    outputs = put s.outputs i (write_map_output fnv (length c.reduce_tasks) (mapf file));
  }
  map_locally s file (negsuc i) = s

  -- The files for reduce task `r` of the next `k` map tasks from `i` on.
  pub found : (ℕ → Option (List (List KeyValue))) → ℕ → ℕ → ℕ → Option (List (List KeyValue))
  found outputs r i zero = some []
  found outputs r i (suc k) = elim (outputs i) [
    | none ↦ none
    | some files ↦ elim (get_elem? files r) [
      | none ↦ none
      | some f ↦ elim (found outputs r (suc i) k) [ none ↦ none | some fs ↦ some (f ∷ fs) ]
    ]
  ]

  abbrev text_of : Option (List (List KeyValue)) → Option String
  text_of none = none
  text_of (some files) = some (do_reduce sort_strings reducef files)

  abbrev pub reduce_locally : Store → ℤ → Store
  reduce_locally s (pos r) = record s {
    results = put s.results r (text_of (found s.outputs r 0 (length c.map_tasks)));
  }
  reduce_locally s (negsuc r) = s

  -- The output of a map task on its own file.
  abbrev pub Mapped : ℕ → Store → Type 0
  Mapped i s =
      (t : Task)
      → get_elem? c.map_tasks i ≡ some t
      → s.outputs i ≡ write_map_output fnv (length c.reduce_tasks) (mapf t.file)

  -- The text that `doReduce` makes of the pairs of its keys, from all map tasks.
  abbrev pub Reduced : ℕ → Store → Type 0
  Reduced r s =
      s.results r
      ≡ some (
          do_reduce sort_strings reducef
            (map (for_task fnv (length c.reduce_tasks) r) (map (λ t. mapf t.file) c.map_tasks)))

  found_lem :
      (outputs : ℕ → Option (List (List KeyValue))) (n r i : ℕ) (ts : List Task)
      → ((j : ℕ) (t : Task)
          → get_elem? ts j ≡ some t
          → outputs (i + j) ≡ write_map_output fnv n (mapf t.file))
      → found outputs r i (length ts) ≡ intermediate fnv n r (map (λ t. mapf t.file) ts)
  unfolding found intermediate
  found_lem outputs n r i [] h = refl
  found_lem outputs n r i (t ∷ ts) h =
      let rest =
        found_lem outputs n r (suc i) ts (λ j u e. ap outputs (omega arith) ∙ h (suc j) u e) in
      let here : outputs i ≡ write_map_output fnv n (mapf t.file) =
        ap outputs (omega arith) ∙ h 0 t refl in
      rw here (
        ap
          (λ o. elim (write_map_output fnv n (mapf t.file)) [
            | none ↦ none
            | some files ↦ elim (get_elem? files r) [
              | none ↦ none
              | some f ↦ elim o [ none ↦ none | some fs ↦ some (f ∷ fs) ]
            ]
          ])
          rest)

  same_task :
      (i : ℕ) (t u : Task)
      → get_elem? c.map_tasks i ≡ some t
      → get_elem? c.map_tasks i ≡ some u
      → t ≡ u
  same_task i t u e e' = some-injective t u (sym e ∙ e')

  own_output :
      (i : ℕ) (t : Task) (s : Store)
      → get_elem? c.map_tasks i ≡ some t
      → Mapped i (map_locally s t.file (pos i))
  own_output i t s e u e' =
      put_self s.outputs i (write_map_output fnv (length c.reduce_tasks) (mapf t.file))
      ∙ ap (λ (v : Task). write_map_output fnv (length c.reduce_tasks) (mapf v.file))
          (same_task i t u e e')

  map-Mapped :
      (i j : ℕ) (t : Task) (s : Store)
      → get_elem? c.map_tasks i ≡ some t
      → Mapped j s
      → Mapped j (map_locally s t.file (pos i))
  map-Mapped i j t s e h u e' = elim (Bool-cases (i == j)) [
    | inl same ↦
        let is_j = (==_iff i j).0 same in
        ap (put s.outputs i (write_map_output fnv (length c.reduce_tasks) (mapf t.file))) (sym is_j)
        ∙ own_output i t s e u (ap (get_elem? c.map_tasks) is_j ∙ e')
    | inr other ↦
        put_other s.outputs i j (write_map_output fnv (length c.reduce_tasks) (mapf t.file)) other
        ∙ h u e'
  ]

  own_text :
      (r : ℕ) (s : Store)
      → r < length c.reduce_tasks
      → ((i : ℕ) → i < length c.map_tasks → Mapped i s)
      → Reduced r (reduce_locally s (pos r))
  own_text r s below maps =
      let n = length c.reduce_tasks in
      put_self s.results r (text_of (found s.outputs r 0 (length c.map_tasks)))
      ∙ ap text_of (
          found_lem s.outputs n r 0 c.map_tasks (λ j t e.
            ap s.outputs (omega arith) ∙ maps j (lt-length_of_get_elem? c.map_tasks j t e) t e)
          ∙ intermediate_lem fnv n r (map (λ t. mapf t.file) c.map_tasks) below)

  reduce-Reduced :
      (r j : ℕ) (s : Store)
      → r < length c.reduce_tasks
      → ((i : ℕ) → i < length c.map_tasks → Mapped i s)
      → Reduced j s
      → Reduced j (reduce_locally s (pos r))
  reduce-Reduced r j s below maps h = elim (Bool-cases (r == j)) [
    | inl same ↦
        let is_j = (==_iff r j).0 same in
        subst (λ k. Reduced k (reduce_locally s (pos r))) is_j (own_text r s below maps)
    | inr other ↦
        put_other s.results r j (text_of (found s.outputs r 0 (length c.map_tasks))) other ∙ h
  ]

  -- The tasks of worker.go do what a single worker needs of them.
  pub local_effects : Effects map_locally reduce_locally c (λ s. Unit {0}) Mapped Reduced
  local_effects = record {
    map_good = λ i t s e g. tt;
    maps = λ i t s e g. own_output i t s e;
    map_keeps_mapped = λ i j t s e g h. map-Mapped i j t s e h;
    map_keeps_reduced = λ i j t s e g h. h;
    reduce_good = λ r s h maps g. tt;
    reduces = λ r s h maps g. own_text r s h maps;
    reduce_keeps_mapped = λ r j s h maps g k. k;
    reduce_keeps_reduced = λ r j s h maps g k. reduce-Reduced r j s h maps k;
  }
