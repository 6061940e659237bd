-- ===== src/FileServer/Laws.antt =====
-- What the file server keeps, and what takes it down.
use Prim.Native.String.append
use text.Mathlib.Text.{◌==◌ as str_eq}
use text.Mathlib.TextEquality.{eq_iff}
use tda596_distributed_syste.Prelude.{
  ◌≡◌, refl, ap, ◌∙◌, ◌||◌, inl, inr, if◌then◌else◌, Bool, true, false, Option-cases, some, List,
  String, arith,
}
use tda596_distributed_syste.Prelude.Text.{◌&◌}
use tda596_distributed_syste.Chord.Node.{StoredFile}
use tda596_distributed_syste.Chord.Storage.{read_file, remove_file, write_file, put_file}
use tda596_distributed_syste.Chord.Storage.Laws.{read_file-put_file, read_file-remove_file}
pub use tda596_distributed_syste.Chord.Storage.Laws.{HasNot, Distinct}
use tda596_distributed_syste.FileServer.{
  list_names, list_directory, Request, Env, written, get_content, remove_old, create_file,
  post_content, get_file, home_page,
}

abbrev pub is_listed : String → Bool
is_listed path =
    str_eq path "/root"
    || str_eq path "/root/"
    || str_eq path "/root/tmp"
    || str_eq path "/root/tmp/"

-- The paths that are listed and the one that is greeted.
abbrev pub is_special : String → Bool
is_special path = str_eq path "/" || is_listed path

abbrev pub get_request : String → Request
get_request path = record { method = "GET"; path = path; body = some "" }

abbrev pub post_request : String → String → Request
post_request path body = record { method = "POST"; path = path; body = some body }

-- The files once an old one of the name is gone and the new one is there.
pub replaced_lem :
    (env : Env) (files : List StoredFile) (name body : String)
    → Distinct files
    → env.disk.can_remove name ≡ true
    → env.disk.can_create name ≡ true
    → env.disk.can_write name ≡ true
    → (files' files'' : List StoredFile) × (remove_old env files name ≡ some files')
      × (create_file env files' "" name (some body) ≡ written files'' "")
      × ((other : String)
          → read_file files'' other
            ≡ (if str_eq name other then some body else read_file files other))
unfolding remove_old create_file write_file
replaced_lem env files name body d removes creates writes =
    elim (Option-cases (read_file files name)) [
      | inl free ↦ (
        files,
        put_file files name body,
        ground (arith, free),
        rw (creates, writes) refl,
        λ other. read_file-put_file files name body other,
      )
      | inr (old, taken) ↦ (
        remove_file files name,
        put_file (remove_file files name) name body,
        ground (arith, taken, removes),
        rw (creates, writes) refl,
        λ other. ground (
          arith,
          read_file-put_file (remove_file files name) name body other,
          read_file-remove_file files name other d,
        ),
      )
    ]

pub home_page_plain :
    (env : Env) (files : List StoredFile) (r : Request)
    → is_special r.path ≡ false
    → home_page env files r ≡ get_file env files "" r
unfolding home_page
home_page_plain env files r plain = ground (arith, plain)

pub posted :
    (env : Env) (files files' files'' : List StoredFile) (path body : String)
    → remove_old env files ("." & path) ≡ some files'
    → create_file env files' "" ("." & path) (some body) ≡ written files'' ""
    → get_file env files "" (post_request path body) ≡ written files'' ""
unfolding get_file post_content
posted env files files' files'' path body er ec = rw (er, post_content) ec

pub fetched :
    (env : Env) (files : List StoredFile) (path body : String)
    → read_file files ("." & path) ≡ some body
    → get_file env files "" (get_request path) ≡ written files body
unfolding get_file get_content
fetched env files path body e = rw (e, get_content) (ap (written files) (append.nil body))

-- What a worker uploads is what the others download: a POST to a path that is not listed or greeted,
-- where each file name is there once, an old file of the name can be removed and the new one created
-- and written, succeeds; a GET of the path then answers exactly the posted body, and every other file
-- is as it was.
pub home_page-get_after_post :
    (env : Env) (files : List StoredFile) (path body : String)
    → is_special path ≡ false
    → Distinct files
    → env.disk.can_remove ("." & path) ≡ true
    → env.disk.can_create ("." & path) ≡ true
    → env.disk.can_write ("." & path) ≡ true
    → (files' : List StoredFile) × (home_page env files (post_request path body)
        ≡ written files' "")
      × (home_page env files' (get_request path) ≡ written files' body)
      × ((other : String)
          → str_eq ("." & path) other ≡ false
          → read_file files' other ≡ read_file files other)
home_page-get_after_post env files path body plain d removes creates writes =
    let (removed, files', er, ec, reads) =
      replaced_lem env files ("." & path) body d removes creates writes in
    let got : read_file files' ("." & path) ≡ some body =
      reads ("." & path) ∙ ground (arith, eq_iff ("." & path) ("." & path)) in
    (
      files',
      home_page_plain env files (post_request path body) plain
          ∙ posted env files removed files' path body er ec,
      home_page_plain env files' (get_request path) plain ∙ fetched env files' path body got,
      λ other e. reads other ∙ ground (arith, e),
    )

-- A GET of the folder that can be listed answers the names in it.
pub home_page_listing :
    (env : Env) (files : List StoredFile) (names : List String)
    → env.read_dir "./root" ≡ some names
    → home_page env files (get_request "/root") ≡ written files (list_names env.directive names)
unfolding home_page list_directory
home_page_listing env files names e =
    rw (e, list_directory) (ap (written files) (append.nil (list_names env.directive names)))

-- So does one of the folder of intermediate files.
pub home_page_tmp_listing :
    (env : Env) (files : List StoredFile) (names : List String)
    → env.read_dir "./root/tmp" ≡ some names
    → home_page env files (get_request "/root/tmp") ≡ written files (list_names env.directive names)
unfolding home_page list_directory
home_page_tmp_listing env files names e =
    rw (e, list_directory) (ap (written files) (append.nil (list_names env.directive names)))
