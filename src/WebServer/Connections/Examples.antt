-- ===== src/WebServer/Connections/Examples.antt =====
-- A server with one connection and one posted file, and a counting semaphore.
use tda596_distributed_syste.Prelude.{
  is_some, ℕ, ◌+◌, ◌-◌, ◌<◌, ◌≡◌, refl, ltb, if◌then◌else◌, true, false, none, some, List, [], ◌∷◌,
  arith,
}
use tda596_distributed_syste.Prelude.Text.{split}
use tda596_distributed_syste.Chord.Node.{StoredFile}
use tda596_distributed_syste.Chord.Storage.{Disk, read_file}
use tda596_distributed_syste.WebServer.{FileSystem, Response, plain, check_file_ending, last_part}
use tda596_distributed_syste.WebServer.Connections.{
  GoLimit, request, end_of_file, Server, Event, accept, accept_error, read, answer, close_handler,
  handle, step, run, listen_and_serve,
}
use tda596_distributed_syste.WebServer.Connections.Laws.{IsSemaphore, Counted, run-Counted}
use tda596_distributed_syste.WebServer.Connections.Requests.{
  IsView, get_request, post_request, answer-get_after_post, run_returns, failed_post_panics,
}

-- How many hold it, and how many may.
abbrev semaphore : GoLimit
semaphore = record {
  Limit = ℕ × ℕ;
  new_go_limit = λ n. (0, n);
  add = λ (held, most). if ltb held most then some (held + 1, most) else none;
  done = λ (held, most). (held - 1, most);
}

semaphore-adds :
    (l l' : ℕ × ℕ)
    → (if ltb l.0 l.1 then some (l.0 + 1, l.1) else none) ≡ some l'
    → (l.0 < l.1) × (l'.0 ≡ l.0 + 1) × (l'.1 ≡ l.1)
semaphore-adds l l' e = ground arith

semaphore-IsSemaphore : IsSemaphore semaphore
semaphore-IsSemaphore = record {
  holders = λ l. l.0;
  capacity = λ l. l.1;
  none_at_first = λ n. refl;
  room_at_first = λ n. refl;
  adds = semaphore-adds;
  gives_back = λ l n e. (omega arith, refl);
}

-- The files in memory are what the operating system shows.
abbrev memory : List StoredFile → FileSystem
memory files = record {
  pwd = "/srv";
  stat = λ name. elim (read_file files name) [ none ↦ none | some _ ↦ some false ];
  can_open = λ name. true;
  read_dir = λ name. none;
  read_all = λ name. read_file files name;
  detect = λ name. some "text/plain";
}

memory-IsView : IsView memory
memory-IsView = record {
  same_pwd = λ files files'. refl;
  shows = λ files name content e. (ground (arith, e), refl, e);
}

abbrev open_disk : Disk
open_disk = record {
  can_create = λ name. true;
  can_write = λ name. true;
  can_remove = λ name. true;
  can_list = λ name. true;
}

known : (check_file_ending "/a.txt").1 ≡ true
unfolding check_file_ending last_part split
known = refl

answer-get_after_post_example :
    (files' : List StoredFile) × (resp : Response) × (answer open_disk memory []
        (post_request "/a.txt" "hello")
      ≡ some (files', plain 200 "OK"))
    × (answer open_disk memory files' (get_request "/a.txt") ≡ some (files', resp))
    × (resp.status ≡ 200)
    × (resp.body ≡ some "hello")
answer-get_after_post_example =
    answer-get_after_post open_disk memory [] "a.txt" "hello" memory-IsView known
      (unfold read_file in refl) refl refl

abbrev visit : List Event
visit =
    accept 3
    ∷ read 0 (request (get_request "/none.txt"))
    ∷ accept_error
    ∷ accept 4
    ∷ read 1 end_of_file
    ∷ []

run_returns_example :
    is_some (run semaphore open_disk memory (listen_and_serve semaphore []) visit) ≡ true
run_returns_example =
    run_returns semaphore open_disk memory (listen_and_serve semaphore []) visit
      (λ name. (refl, refl)) (tt, (("none.txt", refl), (tt, (tt, (tt, tt)))))

abbrev one_left : Server semaphore
one_left = record { limit = (1, 10); files = []; handlers = 4 ∷ []; sent = [] }

run-Counted_example : Counted semaphore semaphore-IsSemaphore one_left
run-Counted_example =
    run-Counted semaphore semaphore-IsSemaphore open_disk memory []
      (accept 3 ∷ accept_error ∷ accept 4 ∷ read 1 end_of_file ∷ []) one_left
      (unfold run step handle close_handler listen_and_serve in refl)

abbrev full_disk : Disk
full_disk = record {
  can_create = λ name. true;
  can_write = λ name. false;
  can_remove = λ name. true;
  can_list = λ name. true;
}

failed_post_panics_example :
    step semaphore full_disk memory one_left (read 0 (request (post_request "/a.txt" "hello")))
    ≡ none
failed_post_panics_example =
    failed_post_panics semaphore full_disk memory one_left 0 4 "/a.txt" "hello" refl known
      (unfold read_file in refl) refl
