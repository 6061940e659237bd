-- ===== src/MapReduce/Coordinator/Invariant.antt =====
-- What holds of the coordinator between two critical sections, and what each of them does.
use tda596_distributed_syste.Prelude.{
  ℕ, zero, suc, ◌+◌, ◌≡◌, sym, ◌∙◌, ◌⊎◌, inl, inr, Bool, true, false, not, some, List, [], ◌∷◌,
  length, get_elem?, set, count_if, count_if-set, length-set, all_of_count_if, if◌then◌else◌, arith,
}
use tda596_distributed_syste.Prelude.Int.{pos}
use tda596_distributed_syste.MapReduce.Coordinator.{
  TaskType, map_task, reduce_task, Task, Coordinator, is_not_started, is_completed,
}

-- The tasks of a slice, the first at position `i`, have one type and carry their positions.
abbrev pub IsTable : TaskType → ℕ → List Task → Type 0
IsTable k i [] = Unit {0}
IsTable k i (t ∷ ts) = (t.type ≡ k) × (t.index ≡ pos i) × IsTable k (suc i) ts

abbrev pub has_completed : Task → Bool
has_completed t = is_completed t.status

abbrev pub has_started : Task → Bool
has_started t = not (is_not_started t.status)

pub record IsValid (c : Coordinator) : Type 0 where
  pub map_length : length c.map_tasks ≡ c.n_map
  pub reduce_length : length c.reduce_tasks ≡ c.n_reduce
  pub map_count : c.n_map_completed ≡ count_if has_completed c.map_tasks
  pub reduce_count : c.n_reduce_completed ≡ count_if has_completed c.reduce_tasks
  pub map_table : IsTable map_task 0 c.map_tasks
  pub reduce_table : IsTable reduce_task 0 c.reduce_tasks
  -- No reduce task starts before the last map task is completed.
  pub phase : (c.n_map_completed ≡ c.n_map) ⊎ (count_if has_started c.reduce_tasks ≡ 0)

pub IsTable-get :
    (k : TaskType) (i : ℕ) (ts : List Task) (j : ℕ) (t : Task)
    → IsTable k i ts
    → get_elem? ts j ≡ some t
    → (t.type ≡ k) × (t.index ≡ pos (i + j))
IsTable-get k i [] j t h e = ground arith
IsTable-get k i (u ∷ ts) zero t h e = ground arith
IsTable-get k i (u ∷ ts) (suc j) t h e = ground (arith, IsTable-get k (suc i) ts j t h.2 e)

pub IsTable-set :
    (k : TaskType) (i : ℕ) (ts : List Task) (j : ℕ) (v : Task)
    → IsTable k i ts
    → v.type ≡ k
    → v.index ≡ pos (i + j)
    → IsTable k i (set ts j v)
IsTable-set k i [] j v h et ei = tt
IsTable-set k i (u ∷ ts) zero v h et ei = (et, ground arith, h.2)
IsTable-set k i (u ∷ ts) (suc j) v h et ei =
    (h.0, h.1, IsTable-set k (suc i) ts j v h.2 et (ground arith))

map_phase :
    (c : Coordinator) (i : ℕ) (t v : Task) (m : ℕ)
    → IsValid c
    → get_elem? c.map_tasks i ≡ some t
    → m + (if has_completed t then 1 else 0)
      ≡ c.n_map_completed + (if has_completed v then 1 else 0)
    → (has_completed t ≡ true → has_completed v ≡ true)
    → (m ≡ c.n_map) ⊎ (count_if has_started c.reduce_tasks ≡ 0)
map_phase c i t v m h e count keep = elim h.phase [
  | inl full ↦
      let was =
        all_of_count_if has_completed c.map_tasks (sym h.map_count ∙ full ∙ sym h.map_length) i t
          e in
      let now = keep was in inl (ground arith)
  | inr idle ↦ inr idle
]

-- Writing a task of the same type at its own index, with the counter moved as the status moved.
pub map_write-IsValid :
    (c : Coordinator) (i : ℕ) (t v : Task) (m : ℕ)
    → IsValid c
    → get_elem? c.map_tasks i ≡ some t
    → v.type ≡ map_task
    → v.index ≡ pos i
    → m + (if has_completed t then 1 else 0)
      ≡ c.n_map_completed + (if has_completed v then 1 else 0)
    → (has_completed t ≡ true → has_completed v ≡ true)
    → IsValid (record c { map_tasks = set c.map_tasks i v; n_map_completed = m })
map_write-IsValid c i t v m h e et ei count keep = record {
  map_length = length-set c.map_tasks i v ∙ h.map_length;
  reduce_length = h.reduce_length;
  map_count = omega (arith, count_if-set has_completed c.map_tasks i t v e, h.map_count);
  reduce_count = h.reduce_count;
  map_table = IsTable-set map_task 0 c.map_tasks i v h.map_table et (ground arith);
  reduce_table = h.reduce_table;
  phase = map_phase c i t v m h e count keep;
}

pub reduce_write-IsValid :
    (c : Coordinator) (i : ℕ) (t v : Task) (m : ℕ)
    → IsValid c
    → get_elem? c.reduce_tasks i ≡ some t
    → v.type ≡ reduce_task
    → v.index ≡ pos i
    → m + (if has_completed t then 1 else 0)
      ≡ c.n_reduce_completed + (if has_completed v then 1 else 0)
    → (c.n_map_completed ≡ c.n_map) ⊎ (has_started v ≡ false)
    → IsValid (record c { reduce_tasks = set c.reduce_tasks i v; n_reduce_completed = m })
reduce_write-IsValid c i t v m h e et ei count ready = record {
  map_length = h.map_length;
  reduce_length = length-set c.reduce_tasks i v ∙ h.reduce_length;
  map_count = h.map_count;
  reduce_count = omega (arith, count_if-set has_completed c.reduce_tasks i t v e, h.reduce_count);
  map_table = h.map_table;
  reduce_table = IsTable-set reduce_task 0 c.reduce_tasks i v h.reduce_table et (ground arith);
  phase = ground (arith, h.phase, count_if-set has_started c.reduce_tasks i t v e);
}
