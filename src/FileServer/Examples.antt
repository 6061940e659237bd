-- ===== src/FileServer/Examples.antt =====
-- A worker's file, uploaded over an old one.
use tda596_distributed_syste.Prelude.{◌≡◌, refl, true, false, none, List, [], ◌∷◌, String}
use text.Mathlib.Text.{◌==◌ as str_eq}
use tda596_distributed_syste.Chord.Node.{StoredFile}
use tda596_distributed_syste.Chord.Storage.{read_file}
use tda596_distributed_syste.FileServer.{Env, written, home_page}
use tda596_distributed_syste.FileServer.Laws.{get_request, post_request, home_page-get_after_post}

abbrev open_env : Env
open_env = record {
  disk = record {
    can_create = λ name. true;
    can_write = λ name. true;
    can_remove = λ name. true;
    can_list = λ name. true;
  };
  read_dir = λ dir. none;
  directive = λ format. "";
}

abbrev old_files : List StoredFile
old_files = record { name = "./root/mr-0-1"; content = "old" } ∷ []

home_page-get_after_post_example :
    (files' : List StoredFile) × (home_page open_env old_files (post_request "/root/mr-0-1" "new")
      ≡ written files' "")
    × (home_page open_env files' (get_request "/root/mr-0-1") ≡ written files' "new")
    × ((other : String)
        → str_eq "./root/mr-0-1" other ≡ false
        → read_file files' other ≡ read_file old_files other)
home_page-get_after_post_example =
    home_page-get_after_post open_env old_files "/root/mr-0-1" "new" refl (tt, tt) refl refl refl
