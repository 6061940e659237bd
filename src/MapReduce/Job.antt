-- ===== src/MapReduce/Job.antt =====
-- The abstract job that the coordinator of Lab3/src/mr/coordinator.go manages: how far each task is,
-- without workers, indices, counters, pointers and goroutines.
use tda596_distributed_syste.Prelude.{
  ℕ, zero, suc, ◌≡◌, ◌⊎◌, refl, inl, inr, some, List, [], ◌∷◌, get_elem?, set, arith,
}

pub data Progress : Type 0 where
  pending running finished : Progress

pub record Job : Type 0 where
  pub maps : List Progress
  pub reduces : List Progress

abbrev pub AllFinished : List Progress → Type 0
AllFinished ps = (i : ℕ) (p : Progress) → get_elem? ps i ≡ some p → p ≡ finished

-- What may happen to a job: a pending task starts, a reduce task only once all map tasks have
-- finished; a running task finishes or goes back to pending.
pub data JobStep (j : Job) : Job → Type 0 where
  idle : {j' : Job} → j' ≡ j → JobStep j j'
  start_map :
      {j' : Job} (i : ℕ)
      → get_elem? j.maps i ≡ some pending
      → j' ≡ record j { maps = set j.maps i running }
      → JobStep j j'
  start_reduce :
      {j' : Job} (i : ℕ)
      → AllFinished j.maps
      → get_elem? j.reduces i ≡ some pending
      → j' ≡ record j { reduces = set j.reduces i running }
      → JobStep j j'
  end_map :
      {j' : Job} (i : ℕ) (p : Progress)
      → get_elem? j.maps i ≡ some running
      → (p ≡ finished) ⊎ (p ≡ pending)
      → j' ≡ record j { maps = set j.maps i p }
      → JobStep j j'
  end_reduce :
      {j' : Job} (i : ℕ) (p : Progress)
      → get_elem? j.reduces i ≡ some running
      → (p ≡ finished) ⊎ (p ≡ pending)
      → j' ≡ record j { reduces = set j.reduces i p }
      → JobStep j j'

pub data JobRun : Job → Job → Type 0 where
  stop : {j : Job} → JobRun j j
  next : {j j' j'' : Job} → JobStep j j' → JobRun j' j'' → JobRun j j''

-- Every task that has finished in one list has in the other.
abbrev pub StaysFinished : List Progress → List Progress → Type 0
StaysFinished ps ps' = (i : ℕ) → get_elem? ps i ≡ some finished → get_elem? ps' i ≡ some finished

stays_set :
    (ps : List Progress) (i : ℕ) (p q : Progress)
    → get_elem? ps i ≡ some q
    → ((q ≡ running) ⊎ (q ≡ pending))
    → StaysFinished ps (set ps i p)
stays_set [] i p q e h = λ j ej. ground arith
stays_set (x ∷ ps) zero p q e h = λ j ej. stays_head x ps p q e h j ej
  where
    stays_head :
        (x : Progress) (ps : List Progress) (p q : Progress)
        → some x ≡ some q
        → ((q ≡ running) ⊎ (q ≡ pending))
        → (j : ℕ) → get_elem? (x ∷ ps) j ≡ some finished
        → get_elem? (p ∷ ps) j ≡ some finished
    stays_head x ps p q e h zero ej = ground arith
    stays_head x ps p q e h (suc j) ej = ej
stays_set (x ∷ ps) (suc i) p q e h = stays_tail x (set ps i p) ps (stays_set ps i p q e h)
  where
    stays_tail :
        (x : Progress) (ps' ps : List Progress)
        → StaysFinished ps ps'
        → StaysFinished (x ∷ ps) (x ∷ ps')
    stays_tail x ps' ps k zero ej = ej
    stays_tail x ps' ps k (suc j) ej = k j ej

-- A step takes back no finished task.
JobStep-StaysFinished :
    {j j' : Job} → JobStep j j' → StaysFinished j.maps j'.maps × StaysFinished j.reduces j'.reduces
JobStep-StaysFinished (idle e) = rw e (λ i h. h, λ i h. h)
JobStep-StaysFinished {j} (start_map i h e) =
    rw e (stays_set j.maps i running pending h (inr refl), λ i h. h)
JobStep-StaysFinished {j} (start_reduce i all h e) =
    rw e (λ i h. h, stays_set j.reduces i running pending h (inr refl))
JobStep-StaysFinished {j} (end_map i p h _ e) =
    rw e (stays_set j.maps i p running h (inl refl), λ i h. h)
JobStep-StaysFinished {j} (end_reduce i p h _ e) =
    rw e (λ i h. h, stays_set j.reduces i p running h (inl refl))

pub JobRun-StaysFinished :
    {j j' : Job} → JobRun j j' → StaysFinished j.maps j'.maps × StaysFinished j.reduces j'.reduces
JobRun-StaysFinished stop = (λ i h. h, λ i h. h)
JobRun-StaysFinished (next step rest) =
    let (maps, reduces) = JobStep-StaysFinished step in
    let (maps', reduces') = JobRun-StaysFinished rest in
    (λ i h. maps' i (maps i h), λ i h. reduces' i (reduces i h))
