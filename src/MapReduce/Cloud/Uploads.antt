-- ===== src/MapReduce/Cloud/Uploads.antt =====
-- What doMap of Lab3/src/mr/worker.go leaves on the file server.
use text.Mathlib.Text.{◌==◌ as str_eq}
use text.Mathlib.TextEquality.{eq_iff}
use tda596_distributed_syste.Prelude.{
  ℕ, zero, suc, ◌+◌, ◌≡◌, refl, ap, ◌∙◌, if◌then◌else◌, false, some, List, [], ◌∷◌, String,
  get_elem?, arith,
}
use tda596_distributed_syste.Prelude.Text.{◌&◌}
use tda596_distributed_syste.Chord.Node.{StoredFile}
use tda596_distributed_syste.Chord.Storage.{read_file}
use tda596_distributed_syste.FileServer.{Env}
use tda596_distributed_syste.FileServer.Laws.{Distinct}
use tda596_distributed_syste.FileServer.Uploads.{TakesFiles, home_page-post}
use tda596_distributed_syste.MapReduce.Shuffle.{KeyValue}
use tda596_distributed_syste.MapReduce.Cloud.{Format, http_post, map_output_path, upload_files}
use tda596_distributed_syste.MapReduce.Cloud.Names.{
  IsPlain, stored_name, stored_name-eq, path_stored, plain_upload,
}

module _ (env : Env) (format : Format) (takes : TakesFiles env) (plain : IsPlain format) where
  open format use {encode}

  abbrev pub stored : ℕ → ℕ → String
  stored m i = stored_name format plain m i

  http_post_output :
      (files : List StoredFile) (m i : ℕ) (body : String)
      → Distinct files
      → (files' : List StoredFile) × (http_post env files
            ("/root/" & map_output_path format m i)
            body
          ≡ some files')
        × Distinct files'
        × ((other : String)
            → read_file files' other
              ≡ (if str_eq (stored m i) other then some body else read_file files other))
  unfolding http_post
  http_post_output files m i body d =
      let path = "/root/" & map_output_path format m i in
      let (files', post, d', reads) =
        home_page-post env files path body takes (plain_upload format m i) d in
      (
        files',
        rw post refl,
        d',
        λ other.
            reads other
            ∙ ap (λ s. if str_eq s other then some body else read_file files other)
                (path_stored format plain m i),
      )

  -- The files of task `m` from number `i` on are those of `parts`, and no other file is touched.
  abbrev pub Uploaded : List StoredFile → ℕ → ℕ → List (List KeyValue) → List StoredFile → Type 0
  Uploaded files m i parts files' =
      ((k : ℕ) (part : List KeyValue)
        → get_elem? parts k ≡ some part
        → read_file files' (stored m (i + k)) ≡ some (encode part))
      × ((other : String)
          → ((k : ℕ) → str_eq (stored m (i + k)) other ≡ false)
          → read_file files' other ≡ read_file files other)

  then-Uploaded :
      (files files' files'' : List StoredFile) (m i : ℕ) (kvs : List KeyValue)
      (rest : List (List KeyValue))
      → ((other : String)
          → read_file files' other
            ≡ (if str_eq (stored m i) other then some (encode kvs) else read_file files other))
      → Uploaded files' m (suc i) rest files''
      → Uploaded files m i (kvs ∷ rest) files''
  then-Uploaded files files' files'' m i kvs rest reads (uploaded, others) = (
    λ k part e. part_at k part e,
    λ other apart.
        others other (λ k. shifted k other (apart (suc k)))
        ∙ reads other
        ∙ ground (arith, shifted_zero other (apart 0)),
  )
    where
      shifted :
          (k : ℕ) (other : String)
          → str_eq (stored m (i + suc k)) other ≡ false
          → str_eq (stored m (suc i + k)) other ≡ false
      shifted k other h = let same : suc i + k ≡ i + suc k = omega arith in rw same h

      shifted_zero :
          (other : String)
          → str_eq (stored m (i + 0)) other ≡ false
          → str_eq (stored m i) other ≡ false
      shifted_zero other h = let same : i + 0 ≡ i = omega arith in rw (← same) h

      part_at :
          (k : ℕ) (part : List KeyValue)
          → get_elem? (kvs ∷ rest) k ≡ some part
          → read_file files'' (stored m (i + k)) ≡ some (encode part)
      part_at zero part e =
          let same : i + 0 ≡ i = omega arith in
          rw same (
            others (stored m i) (λ k. stored_name-eq format plain m (suc i + k) m i ∙ ground arith)
            ∙ reads (stored m i)
            ∙ ground (arith, eq_iff (stored m i) (stored m i), e))
      part_at (suc k) part e =
          let same : i + suc k ≡ suc i + k = omega arith in rw same (uploaded k part e)

  pub upload_files_lem :
      (files : List StoredFile) (m i : ℕ) (parts : List (List KeyValue))
      → Distinct files
      → (files' : List StoredFile) × (upload_files env format files m i parts ≡ some files')
        × Distinct files'
        × Uploaded files m i parts files'
  unfolding upload_files
  upload_files_lem files m i [] d =
      (files, refl, d, (λ k part e. ground arith, λ other apart. refl))
  upload_files_lem files m i (kvs ∷ rest) d =
      let (files', post, d', reads) = http_post_output files m i (encode kvs) d in
      let (files'', e, d'', uploaded) = upload_files_lem files' m (suc i) rest d' in
      (
        files'',
        rw (post, upload_files) e,
        d'',
        then-Uploaded files files' files'' m i kvs rest reads uploaded,
      )
