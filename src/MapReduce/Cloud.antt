-- ===== src/MapReduce/Cloud.antt =====
-- Lab3/src/mr/worker.go with `if_cloud` set, and the download at the end of Done in coordinator.go: a task
-- as its requests to the file server of Lab3/FileServer. The server's files are the state; `none` is
-- log.Fatal, in the worker or in the server. The worker's own disk takes the files that it writes
-- before it sends them.
pub mod Names
pub mod Uploads
pub mod Tasks
pub mod Laws
mod Examples
pub mod Download
use text.Mathlib.Text.{◌==◌ as str_eq}
use tda596_distributed_syste.Prelude.{
  ℕ, suc, ◌==◌, ◌&&◌, if◌then◌else◌, Bool, true, false, Option, none, some, List, [], ◌∷◌, String,
}
use tda596_distributed_syste.Prelude.Text.{◌&◌, split}
use tda596_distributed_syste.Prelude.Affixes.{has_prefix, has_suffix}
use tda596_distributed_syste.Chord.Node.{StoredFile}
use tda596_distributed_syste.Chord.Storage.{Disk, write_file}
use tda596_distributed_syste.FileServer.{Env, Served, written, fatal, home_page}
use tda596_distributed_syste.FileServer.Laws.{get_request, post_request}
use tda596_distributed_syste.MapReduce.Shuffle.{KeyValue, write_map_output, do_reduce}
use tda596_distributed_syste.MapReduce.Coordinator.{Coordinator, done}
use tda596_distributed_syste.MapReduce.CloudFiles.{get_cloud_file_list}

-- What `%v` makes of a number, and `encoding/json` of a file of pairs.
pub record Format : Type 0 where
  pub itoa : ℕ → String
  pub encode : List KeyValue → String
  pub decode : String → List KeyValue

abbrev answer_of : Served → Option String
answer_of (written files body) = some body
answer_of (fatal files) = none

abbrev files_after : Served → Option (List StoredFile)
files_after (written files body) = some files
files_after (fatal files) = none

module _ (env : Env) where
  -- `http.Get` of a path of the server, and the body read.
  unfoldable pub http_get : List StoredFile → String → Option String
  http_get files path = answer_of (home_page env files (get_request path))

  unfoldable pub http_post : List StoredFile → String → String → Option (List StoredFile)
  http_post files path body = files_after (home_page env files (post_request path body))

module _ (format : Format) where
  open format use {itoa}

  -- `fmt.Sprintf("%v-%v", prefix, i)` with the prefix of a map task.
  unfoldable pub map_output_path : ℕ → ℕ → String
  map_output_path map_id i = ("tmp" & "/mr-" & itoa map_id & "-") & "-" & itoa i

  -- The names that a reduce task picks from the server's list.
  unfoldable pub is_for_task : ℕ → String → Bool
  is_for_task reduce_id name = has_prefix name "mr-" && has_suffix name ("-" & itoa reduce_id)

  unfoldable pub matching_files : ℕ → List String → List String
  matching_files reduce_id [] = []
  matching_files reduce_id (name ∷ names) =
      let rest = matching_files reduce_id names in
      if is_for_task reduce_id name then name ∷ rest else rest

  abbrev pub reduce_output_path : ℕ → String
  reduce_output_path reduce_id = "mr-out-" & itoa reduce_id

module _ (env : Env) (format : Format) where
  open format use {encode, decode}

  -- The last loop of `writeMapOutput`: each file is sent to the server.
  unfoldable pub upload_files :
      List StoredFile → ℕ → ℕ → List (List KeyValue) → Option (List StoredFile)
  upload_files files map_id i [] = some files
  upload_files files map_id i (kvs ∷ rest) =
      elim (http_post env files ("/root/" & map_output_path format map_id i) (encode kvs)) [
        | none ↦ none
        | some files' ↦ upload_files files' map_id (suc i) rest
      ]

  -- `doMap`; `none` is also a panic, with no reduce task.
  pub do_map :
      (String → ℕ)
      → (String → String → List KeyValue)
      → List StoredFile
      → ℕ
      → String
      → ℕ
      → Option (List StoredFile)
  do_map fnv mapf files n_reduce path map_id = elim (http_get env files ("/root/" & path)) [
    | none ↦ none
    | some content ↦ elim (write_map_output fnv n_reduce (mapf path content)) [
      | none ↦ none
      | some parts ↦ upload_files files map_id 0 parts
    ]
  ]

  -- The files of a reduce task, fetched and decoded.
  unfoldable pub fetch_files : List StoredFile → List String → Option (List (List KeyValue))
  fetch_files files [] = some []
  fetch_files files (name ∷ names) = elim (http_get env files ("/root/" & "tmp/" & name)) [
    | none ↦ none
    | some content ↦ elim (fetch_files files names) [
      | none ↦ none
      | some parts ↦ some (decode content ∷ parts)
    ]
  ]

  -- `doReduce` with `writeReduceOutput`.
  pub do_reduce_cloud :
      (List String → List String)
      → (String → List String → String)
      → List StoredFile
      → ℕ
      → Option (List StoredFile)
  do_reduce_cloud sort_strings reducef files reduce_id = elim (http_get env files "/root/tmp") [
    | none ↦ none
    | some content ↦
        elim (fetch_files files (matching_files format reduce_id (split b' ' content))) [
          | none ↦ none
          | some parts ↦
              http_post env files ("/root/" & reduce_output_path format reduce_id)
                (do_reduce sort_strings reducef parts)
        ]
  ]

module _ (env : Env) (disk : Disk) (server : List StoredFile) where
  -- The loop over the outputs; what cannot be fetched, created or written is fatal.
  unfoldable pub download_outputs : List StoredFile → List String → Option (List StoredFile)
  download_outputs files [] = some files
  download_outputs files (name ∷ names) = elim (http_get env server ("/root/" & name)) [
    | none ↦ none
    | some body ↦
        let (files', stored) = write_file disk files name body in
        let rest = download_outputs files' names in if stored then rest else none
  ]

  -- `Done` in the cloud, with the pattern "mr-out*" and the coordinator's own files.
  pub done_cloud : (String → Bool) → Coordinator → List StoredFile → Option (Bool × List StoredFile)
  done_cloud matches c files =
      let fetched = elim (http_get env server "/root") as (λ _. Option (Bool × List StoredFile)) [
        | none ↦ none
        | some body ↦ elim (download_outputs files (get_cloud_file_list matches body)) [
          | none ↦ none
          | some files' ↦ some (true, files')
        ]
      ] in
      if done c then fetched else some (false, files)
