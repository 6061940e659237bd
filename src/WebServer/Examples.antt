-- ===== src/WebServer/Examples.antt =====
-- One page, and requests for it.
use text.Mathlib.Text.{◌==◌ as str_eq}
use tda596_distributed_syste.Prelude.{
  ◌≡◌, refl, true, false, if◌then◌else◌, none, some, List, [], ◌∷◌, ◌++◌,
}
use tda596_distributed_syste.Prelude.Text.{split}
use tda596_distributed_syste.Chord.Node.{StoredFile}
use tda596_distributed_syste.Chord.Storage.{Disk, read_file, write_file, put_file}
use tda596_distributed_syste.WebServer.{
  FileSystem, plain, check_file_ending, last_part, copy_name, download_file, post_handler,
}
use tda596_distributed_syste.WebServer.Laws.{post_handler_keeps}

abbrev one_page : FileSystem
one_page = record {
  pwd = "/srv";
  stat = λ url. if str_eq url "/srv/index.html" then some false else none;
  can_open = λ url. true;
  read_dir = λ url. none;
  read_all = λ url. some "hello";
  detect = λ url. some "text/html";
}

abbrev open_disk : Disk
open_disk = record {
  can_create = λ name. true;
  can_write = λ name. true;
  can_remove = λ name. true;
  can_list = λ name. true;
}

known_ending : (check_file_ending "/a.txt").1 ≡ true
unfolding check_file_ending last_part split
known_ending = refl

abbrev stored_before : List StoredFile
stored_before = record { name = "/srv/a.txt"; content = "old" } ∷ []

post_handler_keeps_example :
    read_file
      (stored_before ++ record { name = "/srv/a(1).txt"; content = "new" } ∷ [])
      "/srv/a.txt"
    ≡ some "old"
post_handler_keeps_example =
    post_handler_keeps open_disk "/srv" "/a.txt" "new" "old" stored_before
      (stored_before ++ record { name = "/srv/a(1).txt"; content = "new" } ∷ []) (plain 200 "OK")
      (unfold read_file in refl)
      (unfold post_handler download_file check_file_ending last_part read_file write_file put_file
          copy_name split in
        refl)
