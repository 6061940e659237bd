-- ===== src/MapReduce/Cloud/Laws.antt =====
-- A reduce task of Lab3/src/mr/worker.go on the outputs of the map tasks, through the file server.
use text.Mathlib.Text.{◌==◌ as str_eq}
use tda596_distributed_syste.Prelude.{
  ℕ, ◌<◌, ◌==◌, ◌≡◌, if◌then◌else◌, true, some, List, [], ◌∷◌, map, String,
}
use tda596_distributed_syste.Chord.Node.{StoredFile}
use tda596_distributed_syste.Chord.Storage.{read_file}
use tda596_distributed_syste.FileServer.{Env}
use tda596_distributed_syste.FileServer.Uploads.{TakesFiles}
use tda596_distributed_syste.MapReduce.Shuffle.{KeyValue}
use tda596_distributed_syste.MapReduce.Shuffle.Laws.{for_task}
use tda596_distributed_syste.MapReduce.Cloud.{Format}
use tda596_distributed_syste.MapReduce.Cloud.Names.{IsPlain, listed_name}
use tda596_distributed_syste.MapReduce.Cloud.Uploads.{stored}
use tda596_distributed_syste.MapReduce.Cloud.Tasks.{has, part}

-- The map and the reduce task of an intermediate file.
pub record Key : Type 0 where
  pub map_id : ℕ
  pub reduce_id : ℕ

-- The map tasks whose files for a reduce task are listed, in that order.
unfoldable pub tasks_of : ℕ → List Key → List ℕ
tasks_of r [] = []
tasks_of r (k ∷ keys) =
    let rest = tasks_of r keys in if k.reduce_id == r then k.map_id ∷ rest else rest

module _ (format : Format) (plain : IsPlain format) where
  abbrev pub listing : List Key → List String
  listing keys = map (λ k. listed_name format plain k.map_id k.reduce_id) keys

-- Every listed file is of a task that has run.
abbrev pub AllRan : List ℕ → List Key → Type 0
AllRan ids [] = Unit {0}
AllRan ids (k ∷ keys) = (has k.map_id ids ≡ true) × AllRan ids keys

module _ (env : Env) (format : Format) (takes : TakesFiles env) (plain : IsPlain format)
    (fnv : String → ℕ) (mapf : String → String → List KeyValue) (n_map : ℕ)
    (input content : ℕ → String) (n : ℕ) (pos : 0 < n)
    (decodes : (m r : ℕ)
      → format.decode (format.encode (for_task fnv n r (mapf (input m) (content m))))
        ≡ for_task fnv n r (mapf (input m) (content m))) where
  -- The pairs of map task `m` for reduce task `r`.
  abbrev pub pairs : ℕ → ℕ → List KeyValue
  pairs m r = part env format takes plain fnv mapf n_map input content n pos m r

  -- All of the given map tasks' files for `r` are on the server.
  abbrev AllThere : List StoredFile → ℕ → List ℕ → Type 0
  AllThere files r [] = Unit {0}
  AllThere files r (m ∷ ms) =
      (read_file files (stored env format takes plain m r) ≡ some (format.encode (pairs m r)))
      × AllThere files r ms
