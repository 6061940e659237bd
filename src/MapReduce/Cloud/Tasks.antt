-- ===== src/MapReduce/Cloud/Tasks.antt =====
-- Map tasks of Lab3/src/mr/worker.go that run one after the other against the file server.
use text.Mathlib.Text.{◌==◌ as str_eq}
use tda596_distributed_syste.Prelude.{
  ℕ, ◌+◌, ◌<◌, ◌==◌, ==_iff, ◌||◌, ◌≡◌, refl, sym, ap, ◌∙◌, if◌then◌else◌, Bool, Bool-cases, inl,
  inr, false, Option, none, some, List, [], ◌∷◌, String, arith,
}
use tda596_distributed_syste.Prelude.Text.{◌&◌}
use tda596_distributed_syste.Chord.Node.{StoredFile}
use tda596_distributed_syste.Chord.Storage.{read_file}
use tda596_distributed_syste.FileServer.{Env}
use tda596_distributed_syste.FileServer.Laws.{Distinct, is_special}
use tda596_distributed_syste.FileServer.Uploads.{TakesFiles, home_page-get}
use tda596_distributed_syste.MapReduce.Shuffle.{KeyValue, write_map_output}
use tda596_distributed_syste.MapReduce.Shuffle.Laws.{
  for_task, Partitioned, write_map_output-Partitioned,
}
use tda596_distributed_syste.MapReduce.Cloud.{Format, http_get, do_map}
use tda596_distributed_syste.MapReduce.Cloud.Names.{IsPlain, stored_name-eq}
use tda596_distributed_syste.MapReduce.Cloud.Uploads.{stored, Uploaded, upload_files_lem}

-- The input files on the server, one for each map task, none under the name of an output.
pub record HasInputs (env : Env) (format : Format) (takes : TakesFiles env) (plain : IsPlain format)
    (n_map : ℕ) (input content : ℕ → String) (files : List StoredFile) : Type 0 where
  pub plain_path : (m : ℕ) → m < n_map → is_special ("/root/" & input m) ≡ false
  pub there : (m : ℕ) → m < n_map → read_file files ("." & "/root/" & input m) ≡ some (content m)
  pub apart :
      (m k j : ℕ)
      → j < n_map
      → str_eq (stored env format takes plain m k) ("." & "/root/" & input j) ≡ false

-- Ids of map tasks.
abbrev pub AllBelow : ℕ → List ℕ → Type 0
AllBelow n_map [] = Unit {0}
AllBelow n_map (m ∷ ids) = (m < n_map) × AllBelow n_map ids

pub http_get_there :
    (env : Env) (files : List StoredFile) (path content : String)
    → is_special ("/root/" & path) ≡ false
    → read_file files ("." & "/root/" & path) ≡ some content
    → http_get env files ("/root/" & path) ≡ some content
unfolding http_get
http_get_there env files path content ordinary e =
    rw (home_page-get env files ("/root/" & path) content ordinary e) refl

-- The tasks `ids`, one after the other; an id may come again.
unfoldable pub run_maps :
    Env
    → Format
    → (String → ℕ)
    → (String → String → List KeyValue)
    → (ℕ → String)
    → ℕ
    → List StoredFile
    → List ℕ
    → Option (List StoredFile)
run_maps env format fnv mapf input n files [] = some files
run_maps env format fnv mapf input n files (m ∷ ids) =
    elim (do_map env format fnv mapf files n (input m) m) [
      | none ↦ none
      | some files' ↦ run_maps env format fnv mapf input n files' ids
    ]

abbrev pub has : ℕ → List ℕ → Bool
has m [] = false
has m (i ∷ ids) = i == m || has m ids

module _ (env : Env) (format : Format) (takes : TakesFiles env) (plain : IsPlain format)
    (fnv : String → ℕ) (mapf : String → String → List KeyValue) (n_map : ℕ)
    (input content : ℕ → String) (n : ℕ) (pos : 0 < n) where
  open format use {encode}

  -- What map task `m` emits for reduce task `r`.
  abbrev pub part : ℕ → ℕ → List KeyValue
  part m r = for_task fnv n r (mapf (input m) (content m))

  abbrev pub Inputs : List StoredFile → Type 0
  Inputs = HasInputs env format takes plain n_map input content

  -- The outputs of the tasks `ids` are there; other files are as they were.
  abbrev pub Mapped : List StoredFile → (ℕ → Bool) → List StoredFile → Type 0
  Mapped files ran files' =
      Distinct files'
      × ((m r : ℕ)
          → r < n
          → read_file files' (stored env format takes plain m r) ≡ (
              if ran m
              then some (encode (part m r))
              else read_file files (stored env format takes plain m r)))
      × ((other : String)
          → ((m k : ℕ) → str_eq (stored env format takes plain m k) other ≡ false)
          → read_file files' other ≡ read_file files other)

  Uploaded-Mapped :
      (files files' : List StoredFile) (m : ℕ) (parts : List (List KeyValue))
      → Partitioned fnv n (mapf (input m) (content m)) (some parts)
      → Distinct files'
      → Uploaded env format takes plain files m 0 parts files'
      → Mapped files (λ i. m == i) files'
  Uploaded-Mapped files files' m parts (len, get) d (uploaded, others) = (
    d,
    λ i r h. elim (Bool-cases (m == i)) [
      | inl same ↦
          let is : i ≡ m = sym ((==_iff m i).0 same) in
          let start : r ≡ 0 + r = omega arith in
          rw (same, is)
            (ap (λ k. read_file files' (stored env format takes plain m k)) start
              ∙ uploaded r (part m r) (get r h))
      | inr differs ↦ rw differs (
          others (stored env format takes plain i r)
            (λ k. stored_name-eq format plain m (0 + k) i r ∙ ground (arith, differs)))
    ],
    λ other apart. others other (λ k. apart m (0 + k)),
  )

  do_map-Mapped :
      (files : List StoredFile) (m : ℕ)
      → Inputs files
      → m < n_map
      → Distinct files
      → (files' : List StoredFile) × (do_map env format fnv mapf files n (input m) m ≡ some files')
        × Mapped files (λ i. m == i) files'
  unfolding do_map
  do_map-Mapped files m h below d =
      by_parts (write_map_output fnv n (mapf (input m) (content m))) refl
        (write_map_output-Partitioned fnv n (mapf (input m) (content m)) pos)
    where
      got : http_get env files ("/root/" & input m) ≡ some (content m)
      got = http_get_there env files (input m) (content m) (h.plain_path m below) (h.there m below)

      by_parts :
          (o : Option (List (List KeyValue)))
          → write_map_output fnv n (mapf (input m) (content m)) ≡ o
          → Partitioned fnv n (mapf (input m) (content m)) o
          → (files' : List StoredFile) × (do_map env format fnv mapf files n (input m) m
              ≡ some files')
            × Mapped files (λ i. m == i) files'
      by_parts none e p = elim p [ ]
      by_parts (some parts) e p =
          let (files', sent, d', uploaded) =
            upload_files_lem env format takes plain files m 0 parts d in
          (files', rw (got, do_map, e) sent, Uploaded-Mapped files files' m parts p d' uploaded)

  kept-Inputs :
      (files files' : List StoredFile) (ran : ℕ → Bool)
      → Inputs files
      → Mapped files ran files'
      → Inputs files'
  kept-Inputs files files' ran h (d, mapped, others) = record {
    plain_path = h.plain_path;
    there =
        λ m below. others ("." & "/root/" & input m) (λ i k. h.apart i k m below) ∙ h.there m below;
    apart = h.apart;
  }

  then-Mapped :
      (files files' files'' : List StoredFile) (m : ℕ) (ids : List ℕ)
      → Mapped files (λ i. m == i) files'
      → Mapped files' (λ i. has i ids) files''
      → Mapped files (λ i. has i (m ∷ ids)) files''
  then-Mapped files files' files'' m ids (d, first, others) (d', later, others') = (
    d',
    λ i r h. ground (arith, first i r h, later i r h),
    λ other apart. others' other apart ∙ others other apart,
  )

  -- Whatever map tasks have run, in any order and also again, the server has, for each that did, the
  -- pairs of each reduce task under the task's name, and every other file as it was.
  pub run_maps-Mapped :
      (files : List StoredFile) (ids : List ℕ)
      → Inputs files
      → AllBelow n_map ids
      → Distinct files
      → (files' : List StoredFile) × (run_maps env format fnv mapf input n files ids ≡ some files')
        × Mapped files (λ i. has i ids) files'
  unfolding run_maps
  run_maps-Mapped files [] h below d =
      (files, refl, (d, (λ m r below. refl), (λ other apart. refl)))
  run_maps-Mapped files (m ∷ ids) h below d =
      let (files', e, mapped) = do_map-Mapped files m h below.0 d in
      let (files'', e', mapped') =
        run_maps-Mapped files' ids (kept-Inputs files files' (λ i. m == i) h mapped) below.1
          mapped.0 in
      (files'', rw (e, run_maps) e', then-Mapped files files' files'' m ids mapped mapped')
