-- ===== src/FileServer.antt =====
-- Lab3/FileServer/SimpleServer.go: the server that keeps the files of the MapReduce workers.
pub mod Laws
pub mod Uploads
mod Examples
use Prim.Native.Char.{code}
use text.Mathlib.Text.{◌==◌ as str_eq}
use tda596_distributed_syste.Prelude.{
  if◌then◌else◌, Bool, true, false, ◌&&◌, ◌||◌, Option, none, some, List, [], ◌∷◌, String, ◌==◌,
}
use tda596_distributed_syste.Prelude.Text.{◌&◌}
use tda596_distributed_syste.Chord.Node.{StoredFile}
use tda596_distributed_syste.Chord.Storage.{Disk, read_file, remove_file, write_file}

pub record Request : Type 0 where
  pub method : String
  pub path : String
  -- `none` is a body that cannot be read.
  pub body : Option String

-- The disk, and what the directories hold.
pub record Env : Type 0 where
  pub disk : Disk
  pub read_dir : String → Option (List String)
  -- What `fmt.Fprintf` makes of a format that starts with a percent sign, without arguments.
  pub directive : String → String

-- A handler writes its answer, or ends the whole server by `log.Fatal`.
pub data Served : Type 0 where
  written : List StoredFile → String → Served
  fatal : List StoredFile → Served

-- `fmt.Fprintf` of a format without arguments: it writes the text up to the first percent sign as it
-- is. What it writes from there on is `directive`.
unfoldable pub fprintf : (String → String) → String → String
fprintf directive String.[] = ""
fprintf directive (String.◌∷◌ c s) =
    let rest = fprintf directive s in
    if code c == b'%' then directive (String.◌∷◌ c s) else String.◌∷◌ c rest

-- The loop over the names in a directory; a name and a space are the format of `Fprintf`.
unfoldable pub list_names : (String → String) → List String → String
list_names directive [] = ""
list_names directive (n ∷ ns) = fprintf directive (n & " ") & list_names directive ns

list_directory : Env → List StoredFile → String → String → Served
unfolding list_names fprintf
list_directory env files greeting dir = elim (env.read_dir dir) [
  | none ↦ fatal files
  | some names ↦ written files (greeting & list_names env.directive names)
]

-- What is at a path that a GET opens; a directory opens too, and cannot be read.
get_content : List StoredFile → String → String → Served
get_content files greeting path = elim (read_file files ("." & path)) [
  | none ↦ fatal files
  | some content ↦ written files (greeting & content)
]

-- An old file of the name is removed first; `none` is a file that cannot be.
pub remove_old : Env → List StoredFile → String → Option (List StoredFile)
remove_old env files name = elim (read_file files name) [
  | none ↦ some files
  | some _ ↦ if env.disk.can_remove name then some (remove_file files name) else none
]

-- The new file; the result of `file.Write` is not looked at. Without a body the file is left empty.
pub create_file : Env → List StoredFile → String → String → Option String → Served
create_file env files greeting name body =
    if env.disk.can_create name
    then elim body [
      | none ↦ fatal (write_file env.disk files name "").0
      | some content ↦ written (write_file env.disk files name content).0 greeting
    ]
    else fatal files

post_content : Env → List StoredFile → String → Request → Served
unfolding remove_old create_file
post_content env files greeting r =
    let name = "." & r.path in
    elim (remove_old env files name) [
      | none ↦ fatal files
      | some files' ↦ create_file env files' greeting name r.body
    ]

-- `getFile` after `greeting` has been written.
pub get_file : Env → List StoredFile → String → Request → Served
unfolding get_content post_content
get_file env files greeting r =
    if str_eq r.method "GET"
    then get_content files greeting r.path
    else if str_eq r.method "POST"
    then post_content env files greeting r
    else written files greeting

abbrev pub is_root_listing : Request → Bool
is_root_listing r = (str_eq r.path "/root" || str_eq r.path "/root/") && str_eq r.method "GET"

abbrev pub is_tmp_listing : Request → Bool
is_tmp_listing r =
    (str_eq r.path "/root/tmp" || str_eq r.path "/root/tmp/") && str_eq r.method "GET"

pub home_page : Env → List StoredFile → Request → Served
unfolding list_directory
home_page env files r =
    let greeting = if str_eq r.path "/" then "Welcome to the File storage server!" else "" in
    if is_root_listing r
    then list_directory env files greeting "./root"
    else if is_tmp_listing r
    then list_directory env files greeting "./root/tmp"
    else get_file env files greeting r
