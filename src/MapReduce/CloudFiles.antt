-- ===== src/MapReduce/CloudFiles.antt =====
-- getCloudFileList of Lab3/src/mr/coordinator.go, which asks the file server of Lab3/FileServer for the
-- names of its files. `matches` is `regexp.MatchString` with the pattern that is handed in.
use Prim.Native.Char.{code}
use Prim.Native.String.append
use tda596_distributed_syste.Prelude.{
  ℕ, ◌≡◌, refl, ap, ◌∙◌, ◌==◌, ◌||◌, Bool, false, if◌then◌else◌, some, List, [], ◌∷◌, String, arith,
}
use tda596_distributed_syste.Prelude.Text.{◌&◌, split}
use tda596_distributed_syste.Prelude.Affixes.{text_append_assoc}
use tda596_distributed_syste.Chord.Node.{StoredFile}
use tda596_distributed_syste.MapReduce.Coordinator.{make_coordinator, map_tasks_from}
use tda596_distributed_syste.FileServer.{Env, written, fprintf, list_names, home_page}
use tda596_distributed_syste.FileServer.Laws.{get_request, home_page_listing}

-- The loop over the names.
unfoldable pub matching : (String → Bool) → List String → List String
matching matches [] = []
matching matches (name ∷ names) =
    let rest = matching matches names in if matches name then name ∷ rest else rest

-- `getCloudFileList` on the body of the file server's answer.
unfoldable pub get_cloud_file_list : (String → Bool) → String → List String
get_cloud_file_list matches body = matching matches (split b' ' body)

-- Whether a text has a space or a percent sign.
abbrev pub has_mark : String → Bool
has_mark String.[] = false
has_mark (String.◌∷◌ c s) = code c == b' ' || code c == b'%' || has_mark s

abbrev pub PlainNames : List String → Type 0
PlainNames [] = Unit {0}
PlainNames (name ∷ names) = (has_mark name ≡ false) × PlainNames names

split_first :
    (name rest : String)
    → has_mark name ≡ false
    → split b' ' (name & " " & rest) ≡ name ∷ split b' ' rest
unfolding split
split_first String.[] rest h =
    rw (append.nil (" " & rest), append.cons " " "" rest, append.nil rest) refl
split_first (String.◌∷◌ c name) rest h =
    let later : split b' ' (name & " " & rest) ≡ name ∷ split b' ' rest =
      split_first name rest (ground (arith, h)) in
    let other : (code c == b' ') ≡ false = ground (arith, h) in
    rw (append.cons c name (" " & rest), other, later) refl

-- Without a percent sign, `Fprintf` writes the format.
fprintf_plain :
    (directive : String → String) (name : String)
    → has_mark name ≡ false
    → fprintf directive (name & " ") ≡ name & " "
unfolding fprintf
fprintf_plain directive String.[] h = rw (append.nil " ") refl
fprintf_plain directive (String.◌∷◌ c name) h =
    let rest = fprintf_plain directive name (ground (arith, h)) in
    let other : (code c == b'%') ≡ false = ground (arith, h) in
    rw (append.cons c name " ", other, rest) refl

pub matching-split :
    (directive : String → String) (matches : String → Bool) (names : List String)
    → PlainNames names
    → matches "" ≡ false
    → matching matches (split b' ' (list_names directive names)) ≡ matching matches names
unfolding matching list_names
matching-split directive matches [] h e = unfold split in ground (arith, e)
matching-split directive matches (name ∷ names) h e =
    ap (λ s. matching matches (split b' ' (s & list_names directive names)))
      (fprintf_plain directive name h.0)
    ∙ ap (λ s. matching matches (split b' ' s))
        (text_append_assoc name " " (list_names directive names))
    ∙ ap (matching matches) (split_first name (list_names directive names) h.0)
    ∙ ap (λ rest. if matches name then name ∷ rest else rest)
        (matching-split directive matches names h.1 e)

-- In the cloud, the coordinator has one map task, in order, for each file in the folder of the file
-- server whose name matches: the file server answers its request with the names, and
-- `getCloudFileList` gets back those that match, if no name has a space or a percent sign in it and the
-- pattern does not match the empty text.
pub get_cloud_file_list-home_page :
    (env : Env) (files : List StoredFile) (names inputs : List String) (matches : String → Bool)
    (n_reduce : ℕ)
    → env.read_dir "./root" ≡ some names
    → PlainNames names
    → matches "" ≡ false
    → (body : String) × (home_page env files (get_request "/root") ≡ written files body)
      × (get_cloud_file_list matches body ≡ matching matches names)
      × ((make_coordinator (get_cloud_file_list matches body) inputs n_reduce "cloud").map_tasks
          ≡ map_tasks_from 0 (matching matches names))
unfolding get_cloud_file_list make_coordinator
get_cloud_file_list-home_page env files names inputs matches n_reduce listed plain e =
    let found = matching-split env.directive matches names plain e in
    (
      list_names env.directive names,
      home_page_listing env files names listed,
      found,
      ap (map_tasks_from 0) found,
    )
