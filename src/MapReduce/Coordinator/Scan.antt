-- ===== src/MapReduce/Coordinator/Scan.antt =====
-- What the loop of `selectTask` finds.
use tda596_distributed_syste.Prelude.{
  ℕ, zero, suc, ◌+◌, ◌≤◌, ◌<◌, ◌==◌, ◌≡◌, inl, inr, true, false, Bool-cases, Option, none, some,
  List, length, get_elem?, get_elem?_of_lt, arith,
}
use tda596_distributed_syste.MapReduce.Coordinator.{
  Task, Outcome, ok, panic, is_not_started, index_slice, scan,
}

-- The outcomes of a loop over the indices from `i` below `n`: the least index of a task that is not
-- started, with that task, or none where there is no such index.
abbrev pub Finds : ℕ → ℕ → List Task → Outcome (Option (ℕ × Task)) → Type 0
Finds i n ts panic = ⊥
Finds i n ts (ok none) =
    (j : ℕ) (t : Task) → i ≤ j → j < n → get_elem? ts j ≡ some t → is_not_started t.status ≡ false
Finds i n ts (ok (some (k, t))) =
    (i ≤ k)
    × (k < n)
    × (get_elem? ts k ≡ some t)
    × (is_not_started t.status ≡ true)
    × ((j : ℕ) (u : Task)
        → i ≤ j
        → j < k
        → get_elem? ts j ≡ some u
        → is_not_started u.status ≡ false)

Finds-step :
    (i n : ℕ) (ts : List Task) (t : Task) (r : Outcome (Option (ℕ × Task)))
    → get_elem? ts i ≡ some t
    → is_not_started t.status ≡ false
    → Finds (suc i) n ts r
    → Finds i n ts r
Finds-step i n ts t panic e h f = f
Finds-step i n ts t (ok none) e h f = λ j u i≤j j<n e'. elim (Bool-cases (i == j)) [
  | inl same ↦ ground arith
  | inr other ↦ f j u (ground arith) j<n e'
]
Finds-step i n ts t (ok (some (k, v))) e h (lo, hi, e', s, before) = (
  omega arith,
  hi,
  e',
  s,
  λ j u i≤j j<k ej. elim (Bool-cases (i == j)) [
    | inl same ↦ ground arith
    | inr other ↦ before j u (ground arith) j<k ej
  ],
)

-- The loop over a slice that is long enough does not panic, and finds the first task that is not
-- started if there is one.
pub scan-Finds :
    (rounds i n : ℕ) (ts : List Task)
    → i + rounds ≡ n
    → n ≤ length ts
    → Finds i n ts (scan rounds i ts)
unfolding scan
scan-Finds zero i n ts e h = λ j t i≤j j<n e'. absurd (omega arith)
scan-Finds (suc rounds) i n ts e h =
    let (t, et) = get_elem?_of_lt ts i (omega arith) in
    let ih = scan-Finds rounds (suc i) n ts (omega arith) h in
    elim (Bool-cases (is_not_started t.status)) [
      | inl fresh ↦
          rw (et, index_slice, fresh)
            (omega arith, omega arith, et, fresh, λ j u i≤j j<i ej. absurd (omega arith))
      | inr busy ↦
          rw (et, index_slice, busy) (Finds-step i n ts t (scan rounds (suc i) ts) et busy ih)
    ]
