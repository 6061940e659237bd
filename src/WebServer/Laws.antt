-- ===== src/WebServer/Laws.antt =====
-- Which requests are served, and what becomes of the files.
use tda596_distributed_syste.Prelude.Affixes.{has_prefix, has_prefix-append}
use Prim.Native.Char.{code}
use Prim.Native.String.append
use text.Mathlib.Text.{◌==◌ as str_eq}
use text.Mathlib.TextEquality.{eq_iff}
use tda596_distributed_syste.Prelude.{
  is_some, ◌≡◌, ◌≢◌, ◌↔◌, ◌⊎◌, true, false, if◌then◌else◌, none, some, List, String, arith, [], ◌∷◌,
  refl, Bool-cases, inl, inr, ◌==◌, ap, sym, ◌∙◌,
}
use tda596_distributed_syste.Prelude.Text.{◌&◌, split, cons_head}
use tda596_distributed_syste.Chord.Node.{StoredFile}
use tda596_distributed_syste.Chord.Storage.{Disk, read_file, write_file, put_file}
use tda596_distributed_syste.Chord.Storage.Laws.{read_file-put_file}
use tda596_distributed_syste.WebServer.{
  FileSystem, Response, plain, check_file_ending, get_handler, get_directory, get_file, copy_name,
  download_file, post_handler,
}

-- What a GET request asks for can be served: a directory that can be listed, or a file with a known
-- ending that can be read.
abbrev pub Servable : FileSystem → String → Type 0
Servable fs url =
    (fs.can_open url ≡ true)
    × (((fs.stat url ≡ some true) × (is_some (fs.read_dir url) ≡ true))
        ⊎ ((fs.stat url ≡ some false)
            × ((check_file_ending url).1 ≡ true)
            × (is_some (fs.read_all url) ≡ true)))

-- A GET request is answered with status 200 exactly when what it asks for can be served.
get_handler_iff :
    (fs : FileSystem) (path : String)
    → ((get_handler fs path).status ≡ 200) ↔ Servable fs (fs.pwd & path)
unfolding get_handler get_directory get_file
get_handler_iff fs path = (ground arith, ground arith)

-- A POST of a file with a known ending whose name is free, onto a disk that takes it, is answered
-- with status 200, and the file then has the body as its content and all others are as they were.
pub post_handler-read_file :
    (disk : Disk) (pwd path body : String) (files : List StoredFile)
    → (check_file_ending path).1 ≡ true
    → read_file files (pwd & path) ≡ none
    → disk.can_create (pwd & path) ≡ true
    → disk.can_write (pwd & path) ≡ true
    → (files' : List StoredFile) × (post_handler disk pwd files path body
        ≡ some (files', plain 200 "OK"))
      × ((other : String)
          → read_file files' other
            ≡ (if str_eq (pwd & path) other then some body else read_file files other))
unfolding post_handler download_file write_file
post_handler-read_file disk pwd path body files known free creates writes = (
  put_file files (pwd & path) body,
  ground (arith, known, free, creates, writes),
  λ other. read_file-put_file files (pwd & path) body other,
)

-- The name for a copy is not the name itself: where the name has its first dot, the copy has a
-- parenthesis.
copied-ne :
    (name stem ending : String) (more : List String)
    → split b'.' name ≡ stem ∷ ending ∷ more
    → stem & "(1)." & ending ≢ name
unfolding split has_prefix
copied-ne String.[] stem ending more e h = ground (arith, e)
copied-ne (String.◌∷◌ c s) stem ending more e h = elim (Bool-cases (code c == b'.')) [
  | inl dot ↦
      let empty : "" ∷ split b'.' s ≡ stem ∷ ending ∷ more = rw dot at e in
      let bare : stem ≡ "" = ground (arith, empty) in
      let begins : has_prefix (String.◌∷◌ c s) "(1)." ≡ true =
        ap (λ t. has_prefix t "(1).")
          (sym h ∙ ap (λ t. t & "(1)." & ending) bare ∙ append.nil ("(1)." & ending))
        ∙ has_prefix-append "(1)." ending in
      ground (arith, begins, dot)
  | inr other ↦ later (split b'.' s) refl (rw other at e) (λ x m es. copied-ne s x ending m es)
]
  where
    later :
        (r : List String)
        → split b'.' s ≡ r
        → cons_head c r ≡ stem ∷ ending ∷ more
        → ((x : String) (m : List String) → split b'.' s ≡ x ∷ ending ∷ m → x & "(1)." & ending ≢ s)
        → ⊥
    later [] es er k = ground (arith, er)
    later (x ∷ []) es er k = ground (arith, er)
    later (x ∷ y ∷ ys) es er k =
        let is_stem : String.◌∷◌ c x ≡ stem = ground (arith, er) in
        let is_ending : y ≡ ending = ground (arith, er) in
        let is_more : ys ≡ more = ground (arith, er) in
        let whole : String.◌∷◌ c (x & "(1)." & ending) ≡ String.◌∷◌ c s =
          sym (append.cons c x ("(1)." & ending)) ∙ ap (λ t. t & "(1)." & ending) is_stem ∙ h in
        k x more (es ∙ ap (λ y'. x ∷ y' ∷ ys) is_ending ∙ ap (λ l. x ∷ ending ∷ l) is_more)
          (ground (arith, whole))

-- A POST never changes a file of the name that it asks for: if there is one, it is as it was
-- afterwards, whatever became of the request.
pub post_handler_keeps :
    (disk : Disk) (pwd path body old : String) (files files' : List StoredFile)
    (response : Response)
    → read_file files (pwd & path) ≡ some old
    → post_handler disk pwd files path body ≡ some (files', response)
    → read_file files' (pwd & path) ≡ some old
unfolding post_handler download_file write_file copy_name
post_handler_keeps disk pwd path body old files files' response taken e =
    by_parts (split b'.' (pwd & path)) refl
  where
    by_parts :
        (r : List String) → split b'.' (pwd & path) ≡ r → read_file files' (pwd & path) ≡ some old
    by_parts [] er = ground (arith, taken, er, e)
    by_parts (x ∷ []) er = ground (arith, taken, er, e)
    by_parts (stem ∷ ending ∷ more) er =
        let other = stem & "(1)." & ending in
        ground (
          arith,
          taken,
          er,
          e,
          copied-ne (pwd & path) stem ending more er,
          eq_iff other (pwd & path),
          read_file-put_file files other body (pwd & path),
          read_file-put_file files other "" (pwd & path),
        )
