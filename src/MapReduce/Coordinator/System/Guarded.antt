-- ===== src/MapReduce/Coordinator/System/Guarded.antt =====
-- Which handlers and goroutines watch which tasks, and what that needs of the events.
use mathlib.Core.Path.{subst}
use mathlib.Core.Option.{some-injective}
use tda596_distributed_syste.Prelude.{
  ℕ, zero, suc, ◌<◌, ◌≡◌, ◌≢◌, ap, ◌∙◌, ◌⊎◌, some, List, [], ◌∷◌, length, get_elem?, set, remove_at,
  length-set, arith,
}
use tda596_distributed_syste.Prelude.Int.{ℤ, pos}
use tda596_distributed_syste.MapReduce.Coordinator.{
  map_task, reduce_task, no_task, exit_task, Task, Coordinator, TaskRef, map_ref, reduce_ref, own,
  CompleteTaskArgs, idle_task,
}
use tda596_distributed_syste.MapReduce.Coordinator.Invariant.{IsValid}
use tda596_distributed_syste.MapReduce.Coordinator.System.{
  System, Event, request, answer, complete, expire,
}
use tda596_distributed_syste.MapReduce.Coordinator.System.Watchers.{
  watchers, WatchOk, Watched, Watched-set,
}

abbrev pub All {ℓ} : {A : Type ℓ} → (A → Type 0) → List A → Type 0
All P [] = Unit {0}
All P (x ∷ xs) = P x × All P xs

pub All-get {ℓ} :
    {A : Type ℓ} (P : A → Type 0) (xs : List A) (k : ℕ) (x : A)
    → All P xs
    → get_elem? xs k ≡ some x
    → P x
All-get P [] k x h e = ground arith
All-get P (y ∷ xs) zero x h e = subst P (some-injective y x e) h.0
All-get P (y ∷ xs) (suc k) x h e = All-get P xs k x h.1 e

pub All-remove_at {ℓ} :
    {A : Type ℓ} (P : A → Type 0) (xs : List A) (k : ℕ) → All P xs → All P (remove_at xs k)
All-remove_at P [] k h = tt
All-remove_at P (y ∷ xs) zero h = h.1
All-remove_at P (y ∷ xs) (suc k) h = (h.0, All-remove_at P xs k h.1)

-- A pointer within slices of these lengths.
abbrev pub RefWithin : ℕ → ℕ → TaskRef → Type 0
RefWithin m n (map_ref i) = i < m
RefWithin m n (reduce_ref i) = i < n
RefWithin m n (own t) = (t ≡ idle_task no_task) ⊎ (t ≡ idle_task exit_task)

pub record Guarded (m n : ℕ) (s : System) : Type 0 where
  pub valid : IsValid s.coord
  pub map_size : length s.coord.map_tasks ≡ m
  pub reduce_size : length s.coord.reduce_tasks ≡ n
  pub selected_within : All (λ (r, _). RefWithin m n r) s.selected
  pub timers_within : All (RefWithin m n) s.timers
  pub maps_watched : Watched (λ i. watchers (map_ref i) s.selected s.timers) s.coord.map_tasks
  pub reduces_watched :
      Watched (λ i. watchers (reduce_ref i) s.selected s.timers) s.coord.reduce_tasks

-- The ids of a completion report are within the slices.
abbrev pub ArgsWithin : ℕ → ℕ → CompleteTaskArgs → Type 0
ArgsWithin m n a =
    ((i : ℕ) × (a.task_type ≡ map_task) × (a.task_id ≡ pos i) × (i < m))
    ⊎ ((i : ℕ) × (a.task_type ≡ reduce_task) × (a.task_id ≡ pos i) × (i < n))
    ⊎ (a.task_type ≡ no_task)
    ⊎ (a.task_type ≡ exit_task)

abbrev pub EventWithin : ℕ → ℕ → Event → Type 0
EventWithin m n (request w) = Unit {0}
EventWithin m n (answer k) = Unit {0}
EventWithin m n (complete a) = ArgsWithin m n a
EventWithin m n (expire k) = Unit {0}

abbrev pub map_watchers : List (TaskRef × ℤ) → List TaskRef → ℕ → ℕ
map_watchers selected timers i = watchers (map_ref i) selected timers

abbrev pub reduce_watchers : List (TaskRef × ℤ) → List TaskRef → ℕ → ℕ
reduce_watchers selected timers i = watchers (reduce_ref i) selected timers

module _ (m n : ℕ) (s : System) (c' : Coordinator) (selected : List (TaskRef × ℤ))
    (timers : List TaskRef) (g : Guarded m n s) (valid : IsValid c')
    (selected_within : All (λ (r, _). RefWithin m n r) selected)
    (timers_within : All (RefWithin m n) timers) where
  -- One map task is written, and only its watchers change.
  pub guard_map :
      (i : ℕ) (v : Task)
      → c'.map_tasks ≡ set s.coord.map_tasks i v
      → c'.reduce_tasks ≡ s.coord.reduce_tasks
      → WatchOk v.status (map_watchers selected timers i)
      → ((j : ℕ) → i ≢ j → map_watchers selected timers j ≡ map_watchers s.selected s.timers j)
      → ((j : ℕ) → reduce_watchers selected timers j ≡ reduce_watchers s.selected s.timers j)
      → Guarded m n (record { coord = c'; selected = selected; timers = timers })
  guard_map i v em er here others reduces = record {
    valid = valid;
    map_size = ap length em ∙ length-set s.coord.map_tasks i v ∙ g.map_size;
    reduce_size = ap length er ∙ g.reduce_size;
    selected_within = selected_within;
    timers_within = timers_within;
    maps_watched = rw em (
        Watched-set (map_watchers s.selected s.timers) (map_watchers selected timers)
          s.coord.map_tasks i v g.maps_watched here others);
    reduces_watched = rw er (λ j t e. rw (reduces j) (g.reduces_watched j t e));
  }

  pub guard_reduce :
      (i : ℕ) (v : Task)
      → c'.map_tasks ≡ s.coord.map_tasks
      → c'.reduce_tasks ≡ set s.coord.reduce_tasks i v
      → WatchOk v.status (reduce_watchers selected timers i)
      → ((j : ℕ)
          → i ≢ j
          → reduce_watchers selected timers j ≡ reduce_watchers s.selected s.timers j)
      → ((j : ℕ) → map_watchers selected timers j ≡ map_watchers s.selected s.timers j)
      → Guarded m n (record { coord = c'; selected = selected; timers = timers })
  guard_reduce i v em er here others maps = record {
    valid = valid;
    map_size = ap length em ∙ g.map_size;
    reduce_size = ap length er ∙ length-set s.coord.reduce_tasks i v ∙ g.reduce_size;
    selected_within = selected_within;
    timers_within = timers_within;
    maps_watched = rw em (λ j t e. rw (maps j) (g.maps_watched j t e));
    reduces_watched = rw er (
        Watched-set (reduce_watchers s.selected s.timers) (reduce_watchers selected timers)
          s.coord.reduce_tasks i v g.reduces_watched here others);
  }

  -- No task is written.
  pub guard_same :
      c' ≡ s.coord
      → ((j : ℕ) → map_watchers selected timers j ≡ map_watchers s.selected s.timers j)
      → ((j : ℕ) → reduce_watchers selected timers j ≡ reduce_watchers s.selected s.timers j)
      → Guarded m n (record { coord = c'; selected = selected; timers = timers })
  guard_same e maps reduces = record {
    valid = valid;
    map_size = ap (λ c. length c.map_tasks) e ∙ g.map_size;
    reduce_size = ap (λ c. length c.reduce_tasks) e ∙ g.reduce_size;
    selected_within = selected_within;
    timers_within = timers_within;
    maps_watched = rw e (λ j t et. rw (maps j) (g.maps_watched j t et));
    reduces_watched = rw e (λ j t et. rw (reduces j) (g.reduces_watched j t et));
  }
