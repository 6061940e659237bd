-- ===== src/FileServer/Uploads.antt =====
-- A file that is posted to Lab3/FileServer, and the list of files that it leaves.
use text.Mathlib.Text.{◌==◌ as str_eq}
use text.Mathlib.TextEquality.{eq_iff}
use tda596_distributed_syste.Prelude.{
  ◌≡◌, ◌∙◌, inl, inr, if◌then◌else◌, true, false, Bool-cases, Option-cases, some, List, [], ◌∷◌,
  String, arith,
}
use tda596_distributed_syste.Prelude.Text.{◌&◌}
use tda596_distributed_syste.Chord.Node.{StoredFile}
use tda596_distributed_syste.Chord.Storage.{read_file, remove_file, write_file, put_file}
use tda596_distributed_syste.FileServer.{Env, written, home_page, remove_old, create_file}
use tda596_distributed_syste.FileServer.Laws.{
  is_special, get_request, post_request, HasNot, Distinct, home_page_plain, fetched, posted,
  replaced_lem,
}

-- A server whose disk takes every file.
pub record TakesFiles (env : Env) : Type 0 where
  pub removes : (name : String) → env.disk.can_remove name ≡ true
  pub creates : (name : String) → env.disk.can_create name ≡ true
  pub writes : (name : String) → env.disk.can_write name ≡ true

put_file-HasNot :
    (other name content : String) (files : List StoredFile)
    → HasNot other files
    → str_eq name other ≡ false
    → HasNot other (put_file files name content)
unfolding put_file
put_file-HasNot other name content [] h e = (e, tt)
put_file-HasNot other name content (f ∷ fs) h e = elim (Bool-cases (str_eq f.name name)) [
  | inl same ↦ rw same (e, h.1)
  | inr differs ↦ rw differs (h.0, put_file-HasNot other name content fs h.1 e)
]

put_file-Distinct :
    (name content : String) (files : List StoredFile)
    → Distinct files
    → Distinct (put_file files name content)
unfolding put_file
put_file-Distinct name content [] d = (tt, tt)
put_file-Distinct name content (f ∷ fs) d = elim (Bool-cases (str_eq f.name name)) [
  | inl same ↦
      let is_name : f.name ≡ name = (eq_iff f.name name).0 same in rw same (rw (← is_name) d.0, d.1)
  | inr differs ↦ rw differs (
    put_file-HasNot f.name name content fs d.0
        (ground (arith, differs, eq_iff f.name name, eq_iff name f.name)),
    put_file-Distinct name content fs d.1,
  )
]

remove_file-HasNot :
    (other name : String) (files : List StoredFile)
    → HasNot other files
    → HasNot other (remove_file files name)
unfolding remove_file
remove_file-HasNot other name [] h = tt
remove_file-HasNot other name (f ∷ fs) h = elim (Bool-cases (str_eq f.name name)) [
  | inl same ↦ rw same h.1
  | inr differs ↦ rw differs (h.0, remove_file-HasNot other name fs h.1)
]

remove_file-Distinct :
    (name : String) (files : List StoredFile) → Distinct files → Distinct (remove_file files name)
unfolding remove_file
remove_file-Distinct name [] d = tt
remove_file-Distinct name (f ∷ fs) d = elim (Bool-cases (str_eq f.name name)) [
  | inl same ↦ rw same d.1
  | inr differs ↦
      rw differs (remove_file-HasNot f.name name fs d.0, remove_file-Distinct name fs d.1)
]

replaced-Distinct :
    (env : Env) (files files' files'' : List StoredFile) (name body : String)
    → Distinct files
    → remove_old env files name ≡ some files'
    → create_file env files' "" name (some body) ≡ written files'' ""
    → TakesFiles env
    → Distinct files''
unfolding remove_old create_file write_file
replaced-Distinct env files files' files'' name body d er ec takes =
    elim (Option-cases (read_file files name)) [
      | inl free ↦
          let same : files' ≡ files = ground (arith, er, free) in
          let is : files'' ≡ put_file files' name body =
            ground (arith, ec, takes.creates name, takes.writes name) in
          rw (is, same) (put_file-Distinct name body files d)
      | inr (old, taken) ↦
          let same : files' ≡ remove_file files name =
            ground (arith, er, taken, takes.removes name) in
          let is : files'' ≡ put_file files' name body =
            ground (arith, ec, takes.creates name, takes.writes name) in
          rw (is, same)
            (put_file-Distinct name body (remove_file files name)
              (remove_file-Distinct name files d))
    ]

-- A POST to a server that takes it: the file is there, and every other one is as it was.
pub home_page-post :
    (env : Env) (files : List StoredFile) (path body : String)
    → TakesFiles env
    → is_special path ≡ false
    → Distinct files
    → (files' : List StoredFile) × (home_page env files (post_request path body)
        ≡ written files' "")
      × Distinct files'
      × ((other : String)
          → read_file files' other
            ≡ (if str_eq ("." & path) other then some body else read_file files other))
home_page-post env files path body takes plain d =
    let name = "." & path in
    let (removed, files', er, ec, reads) =
      replaced_lem env files name body d (takes.removes name) (takes.creates name)
        (takes.writes name) in
    (
      files',
      home_page_plain env files (post_request path body) plain
          ∙ posted env files removed files' path body er ec,
      replaced-Distinct env files removed files' name body d er ec takes,
      reads,
    )

-- A GET of a file that is there.
pub home_page-get :
    (env : Env) (files : List StoredFile) (path body : String)
    → is_special path ≡ false
    → read_file files ("." & path) ≡ some body
    → home_page env files (get_request path) ≡ written files body
home_page-get env files path body plain e =
    home_page_plain env files (get_request path) plain ∙ fetched env files path body e
