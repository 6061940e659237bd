-- ===== src/HttpClient/Examples.antt =====
-- A file that goes from one client to another.
use tda596_distributed_syste.Prelude.{
  ◌≡◌, refl, true, false, none, some, List, [], String, if◌then◌else◌, arith,
}
use text.Mathlib.Text.{◌==◌ as str_eq}
use tda596_distributed_syste.Prelude.Text.{split}
use tda596_distributed_syste.Chord.Node.{StoredFile}
use tda596_distributed_syste.Chord.Storage.{Disk, read_file}
use tda596_distributed_syste.WebServer.{FileSystem, plain, check_file_ending, last_part}
use tda596_distributed_syste.WebServer.Connections.{answer}
use tda596_distributed_syste.WebServer.Connections.Requests.{IsView, post_request}
use tda596_distributed_syste.HttpClient.{Machine, returned, sender}
use tda596_distributed_syste.HttpClient.Laws.{served_by, sender-get_after_post}

-- The files in memory are what the operating system shows.
abbrev memory : List StoredFile → FileSystem
memory files = record {
  pwd = "/srv";
  stat = λ name. elim (read_file files name) [ none ↦ none | some _ ↦ some false ];
  can_open = λ name. true;
  read_dir = λ name. none;
  read_all = λ name. read_file files name;
  detect = λ name. some "text/plain";
}

memory-IsView : IsView memory
memory-IsView = record {
  same_pwd = λ files files'. refl;
  shows = λ files name content e. (ground (arith, e), refl, e);
}

abbrev open_disk : Disk
open_disk = record {
  can_create = λ name. true;
  can_write = λ name. true;
  can_remove = λ name. true;
  can_list = λ name. true;
}

abbrev laptop : Machine
laptop = record {
  pwd = "/home";
  disk = open_disk;
  can_open = λ path. str_eq path "/home/root/a.txt";
  read_all = λ path. "hello";
  detect = λ path. some "text/plain";
  accepts = λ method url. true;
}

abbrev path_of : String → String
path_of url = if str_eq url "http://h:80/root/a.txt" then "/root/a.txt" else "/"

known : (check_file_ending "/root/a.txt").1 ≡ true
unfolding check_file_ending last_part split
known = refl

sender-get_after_post_example :
    (files' bob_files' : List StoredFile) × (answer open_disk memory []
        (post_request "/root/a.txt" "hello")
      ≡ some (files', plain 200 "OK"))
    × (sender laptop "h:80" [] (served_by path_of open_disk memory []) "POST" "/root" "a.txt"
        ≡ returned [])
    × (sender laptop "h:80" [] (served_by path_of open_disk memory files') "GET" "/root" "a.txt"
        ≡ returned bob_files')
    × (read_file bob_files' "a.txt" ≡ some "hello")
sender-get_after_post_example =
    sender-get_after_post laptop laptop "h:80" "/root" "a.txt" "root/a.txt" path_of open_disk memory
      [] [] [] refl refl refl refl refl memory-IsView known (unfold read_file in refl) refl refl
      (unfold read_file in refl) refl refl
