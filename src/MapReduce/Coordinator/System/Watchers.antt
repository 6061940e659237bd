-- ===== src/MapReduce/Coordinator/System/Watchers.antt =====
-- Who will next touch a task: the handler that selected it, or the goroutine that waits for it.
use mathlib.Core.Path.{subst}
use mathlib.Core.Option.{some-injective}
use tda596_distributed_syste.Prelude.{
  ℕ, zero, suc, ◌+◌, ◌≤◌, ◌==◌, ◌≡◌, ◌≢◌, Bool, false, some, List, [], ◌∷◌, get_elem?, set,
  remove_at, count_if, if◌then◌else◌, count_if-remove_at, arith,
}
use tda596_distributed_syste.Prelude.Int.{ℤ}
use tda596_distributed_syste.MapReduce.Coordinator.{
  TaskStatus, not_started, in_progress, completed, Task, TaskRef, map_ref, reduce_ref,
}

abbrev pub same_ref : TaskRef → TaskRef → Bool
same_ref (map_ref i) (map_ref j) = i == j
same_ref (reduce_ref i) (reduce_ref j) = i == j
same_ref _ _ = false

abbrev pub watchers : TaskRef → List (TaskRef × ℤ) → List TaskRef → ℕ
watchers r selected timers =
    count_if (λ (q, _). same_ref r q) selected + count_if (same_ref r) timers

-- How many watchers a task may have: one as long as it is in progress, none before, and after it is
-- completed at most the goroutine that has not woken up.
abbrev pub WatchOk : TaskStatus → ℕ → Type 0
WatchOk not_started n = n ≡ 0
WatchOk in_progress n = n ≡ 1
WatchOk completed n = n ≤ 1

abbrev pub Watched : (ℕ → ℕ) → List Task → Type 0
Watched w ts = (i : ℕ) (t : Task) → get_elem? ts i ≡ some t → WatchOk t.status (w i)

at_head :
    (w w' : ℕ → ℕ) (x v : Task) (xs : List Task) (j : ℕ) (t : Task)
    → get_elem? (v ∷ xs) j ≡ some t
    → Watched w (x ∷ xs)
    → WatchOk v.status (w' 0)
    → ((j : ℕ) → 0 ≢ j → w' j ≡ w j)
    → WatchOk t.status (w' j)
at_head w w' x v xs zero t e h here others =
    subst (λ u. WatchOk u.status (w' 0)) (some-injective v t e) here
at_head w w' x v xs (suc j) t e h here others =
    rw (others (suc j) (λ z. ground arith)) (h (suc j) t e)

at_tail :
    (w w' : ℕ → ℕ) (x : Task) (xs : List Task) (i : ℕ) (v : Task) (j : ℕ) (t : Task)
    → get_elem? (x ∷ set xs i v) j ≡ some t
    → Watched w (x ∷ xs)
    → ((j : ℕ) → suc i ≢ j → w' j ≡ w j)
    → Watched (λ k. w' (suc k)) (set xs i v)
    → WatchOk t.status (w' j)
at_tail w w' x xs i v zero t e h others rest = rw (others 0 (λ z. ground arith)) (h 0 t e)
at_tail w w' x xs i v (suc j) t e h others rest = rest j t e

-- Writing one task whose watchers fit its new status keeps the rest as they were.
pub Watched-set :
    (w w' : ℕ → ℕ) (ts : List Task) (i : ℕ) (v : Task)
    → Watched w ts
    → WatchOk v.status (w' i)
    → ((j : ℕ) → i ≢ j → w' j ≡ w j)
    → Watched w' (set ts i v)
Watched-set w w' [] i v h here others = λ j t e. ground arith
Watched-set w w' (x ∷ xs) zero v h here others = λ j t e. at_head w w' x v xs j t e h here others
Watched-set w w' (x ∷ xs) (suc i) v h here others = λ j t e. at_tail w w' x xs i v j t e h others (
    Watched-set (λ k. w (suc k)) (λ k. w' (suc k)) xs i v (λ k u eu. h (suc k) u eu) here
      (λ k ne. others (suc k) (λ es. ne (omega arith))))

-- A handler that starts its goroutine hands its task over to it.
pub watchers_moved :
    (q r : TaskRef) (w : ℤ) (selected : List (TaskRef × ℤ)) (timers : List TaskRef) (k : ℕ)
    → get_elem? selected k ≡ some (r, w)
    → watchers q (remove_at selected k) (r ∷ timers) ≡ watchers q selected timers
watchers_moved q r w selected timers k e =
    omega (arith, count_if-remove_at (λ (p, _). same_ref q p) selected k (r, w) e)

pub watchers_dropped :
    (q r : TaskRef) (w : ℤ) (selected : List (TaskRef × ℤ)) (timers : List TaskRef) (k : ℕ)
    → get_elem? selected k ≡ some (r, w)
    → same_ref q r ≡ false
    → watchers q (remove_at selected k) timers ≡ watchers q selected timers
watchers_dropped q r w selected timers k e h =
    ground (arith, count_if-remove_at (λ (p, _). same_ref q p) selected k (r, w) e)

pub watchers_fired :
    (q r : TaskRef) (selected : List (TaskRef × ℤ)) (timers : List TaskRef) (k : ℕ)
    → get_elem? timers k ≡ some r
    → watchers q selected (remove_at timers k) + (if same_ref q r then 1 else 0)
      ≡ watchers q selected timers
watchers_fired q r selected timers k e = omega (arith, count_if-remove_at (same_ref q) timers k r e)
