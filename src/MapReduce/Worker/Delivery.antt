-- ===== src/MapReduce/Worker/Delivery.antt =====
-- A single worker against the coordinator: what its tasks leave on the files.
use text.Mathlib.Text.{◌==◌ as str_eq}
use tda596_distributed_syste.Prelude.{ℕ, ◌<◌, ◌≡◌, true, some, String, length, get_elem?}
use tda596_distributed_syste.Prelude.Int.{ℤ, pos}
use tda596_distributed_syste.MapReduce.Coordinator.{Task, Coordinator}
use tda596_distributed_syste.MapReduce.Coordinator.Invariant.{has_completed}

-- The coordinator `c` that the worker meets, and what map and reduce tasks must do to `good` files, for
-- `mapped i` to hold of them after map task `i`, and `reduced r` after reduce task `r`.
module _ {F : Type 0} (do_map : F → String → ℤ → F) (do_reduce : F → ℤ → F) where
  pub record Effects (c : Coordinator) (good : F → Type 0) (mapped reduced : ℕ → F → Type 0)
      : Type 0 where
    pub map_good :
        (i : ℕ) (t : Task) (f : F)
        → get_elem? c.map_tasks i ≡ some t
        → good f
        → good (do_map f t.file (pos i))
    pub maps :
        (i : ℕ) (t : Task) (f : F)
        → get_elem? c.map_tasks i ≡ some t
        → good f
        → mapped i (do_map f t.file (pos i))
    pub map_keeps_mapped :
        (i j : ℕ) (t : Task) (f : F)
        → get_elem? c.map_tasks i ≡ some t
        → good f
        → mapped j f
        → mapped j (do_map f t.file (pos i))
    pub map_keeps_reduced :
        (i j : ℕ) (t : Task) (f : F)
        → get_elem? c.map_tasks i ≡ some t
        → good f
        → reduced j f
        → reduced j (do_map f t.file (pos i))
    pub reduce_good :
        (r : ℕ) (f : F)
        → r < length c.reduce_tasks
        → ((i : ℕ) → i < length c.map_tasks → mapped i f)
        → good f
        → good (do_reduce f (pos r))
    pub reduces :
        (r : ℕ) (f : F)
        → r < length c.reduce_tasks
        → ((i : ℕ) → i < length c.map_tasks → mapped i f)
        → good f
        → reduced r (do_reduce f (pos r))
    pub reduce_keeps_mapped :
        (r j : ℕ) (f : F)
        → r < length c.reduce_tasks
        → ((i : ℕ) → i < length c.map_tasks → mapped i f)
        → good f
        → mapped j f
        → mapped j (do_reduce f (pos r))
    pub reduce_keeps_reduced :
        (r j : ℕ) (f : F)
        → r < length c.reduce_tasks
        → ((i : ℕ) → i < length c.map_tasks → mapped i f)
        → good f
        → reduced j f
        → reduced j (do_reduce f (pos r))

-- The tasks of `c'` are those of `c`, and the completed ones have left what they should.
pub record Delivered {F : Type 0} (c : Coordinator) (good : F → Type 0)
    (mapped reduced : ℕ → F → Type 0) (c' : Coordinator) (f : F) : Type 0 where
  pub fine : good f
  pub maps :
      (i : ℕ) (t : Task)
      → get_elem? c'.map_tasks i ≡ some t
      → (u : Task) × (get_elem? c.map_tasks i ≡ some u) × (t.file ≡ u.file)
  pub n_maps : length c'.map_tasks ≡ length c.map_tasks
  pub n_reduces : length c'.reduce_tasks ≡ length c.reduce_tasks
  pub all_mapped :
      (i : ℕ) (t : Task) → get_elem? c'.map_tasks i ≡ some t → has_completed t ≡ true → mapped i f
  pub all_reduced :
      (r : ℕ) (t : Task)
      → get_elem? c'.reduce_tasks r ≡ some t
      → has_completed t ≡ true
      → reduced r f
