-- ===== src/WebServer/Connections/Laws.antt =====
-- The number of connections of the server.
use mathlib.Core.Path.{subst}
use tda596_distributed_syste.Prelude.{
  length-remove_at, ℕ, suc, ◌+◌, ◌<◌, ◌≤◌, ◌≡◌, sym, ◌∙◌, inl, inr, Option, none, some, List, [],
  ◌∷◌, String, length, get_elem?, remove_at, lt-length_of_get_elem?, Option-cases, arith,
}
use tda596_distributed_syste.Chord.Node.{StoredFile}
use tda596_distributed_syste.Chord.Storage.{Disk}
use tda596_distributed_syste.WebServer.{FileSystem, Response}
use tda596_distributed_syste.WebServer.Connections.{
  GoLimit, Request, Incoming, request, end_of_file, malformed, Server, Event, accept, accept_error,
  read, Sent, response, answer, close_handler, serve, handle, step, run, listen_and_serve,
}

-- What the documentation of `golimit` promises, by the number of holders and the highest one.
pub record IsSemaphore (g : GoLimit) : Type 0 where
  pub holders : g.Limit → ℕ
  pub capacity : g.Limit → ℕ
  pub none_at_first : (n : ℕ) → holders (g.new_go_limit n) ≡ 0
  pub room_at_first : (n : ℕ) → capacity (g.new_go_limit n) ≡ n
  pub adds :
      (l l' : g.Limit)
      → g.add l ≡ some l'
      → (holders l < capacity l) × (holders l' ≡ holders l + 1) × (capacity l' ≡ capacity l)
  pub gives_back :
      (l : g.Limit) (n : ℕ)
      → holders l ≡ suc n
      → (holders (g.done l) ≡ n) × (capacity (g.done l) ≡ capacity l)

-- The semaphore and the handlers agree, and there are at most ten.
pub record Counted (g : GoLimit) (sem : IsSemaphore g) (s : Server g) : Type 0 where
  pub held : sem.holders s.limit ≡ length s.handlers
  pub room : sem.capacity s.limit ≡ 10
  pub at_most : length s.handlers ≤ 10

close_handler-Counted :
    (g : GoLimit) (sem : IsSemaphore g) (s : Server g) (k c : ℕ)
    → Counted g sem s
    → get_elem? s.handlers k ≡ some c
    → Counted g sem (close_handler g s k)
unfolding close_handler
close_handler-Counted g sem s k c h e =
    let fewer = length-remove_at s.handlers k (lt-length_of_get_elem? s.handlers k c e) in
    let (held, room) =
      sem.gives_back s.limit (length (remove_at s.handlers k)) (h.held ∙ sym fewer) in
    record { held = held; room = room ∙ h.room; at_most = omega (arith, h.at_most) }

abbrev OnSome : {A : Type 0} → (A → Type 0) → Option A → Type 0
OnSome P none = Unit {0}
OnSome P (some a) = P a

-- A round that only answers keeps the connections.
serve-Counted :
    (g : GoLimit) (sem : IsSemaphore g) (disk : Disk) (fs : List StoredFile → FileSystem)
    (s : Server g) (c : ℕ) (r : Request)
    → Counted g sem s
    → OnSome (Counted g sem) (serve g disk fs s c r)
unfolding serve
serve-Counted g sem disk fs s c r h = answered (answer disk fs s.files r)
  where
    kept :
        (files : List StoredFile) (sent : List (ℕ × Sent))
        → Counted g sem (record s { files = files; sent = sent })
    kept files sent = record { held = h.held; room = h.room; at_most = h.at_most }

    written :
        (files : List StoredFile) (resp : Response) (body : Option String)
        → OnSome (Counted g sem) (elim body [
          | none ↦ none
          | some _ ↦ some (record s { files = files; sent = (c, response resp) ∷ s.sent })
        ])
    written files resp none = tt
    written files resp (some body) = kept files ((c, response resp) ∷ s.sent)

    answered :
        (o : Option (List StoredFile × Response))
        → OnSome (Counted g sem) (elim o [
          | none ↦ none
          | some (files, resp) ↦ elim resp.body [
            | none ↦ none
            | some _ ↦ some (record s { files = files; sent = (c, response resp) ∷ s.sent })
          ]
        ])
    answered none = tt
    answered (some (files, resp)) = written files resp resp.body

accept-Counted :
    (g : GoLimit) (sem : IsSemaphore g) (s : Server g) (c : ℕ) (l : g.Limit)
    → Counted g sem s
    → g.add s.limit ≡ some l
    → Counted g sem (record s { limit = l; handlers = c ∷ s.handlers })
accept-Counted g sem s c l h e =
    let (free, more, same) = sem.adds s.limit l e in
    record {
      held = omega (arith, h.held);
      room = same ∙ h.room;
      at_most = omega (arith, h.held, h.room);
    }

step-Counted :
    (g : GoLimit) (sem : IsSemaphore g) (disk : Disk) (fs : List StoredFile → FileSystem)
    (s : Server g) (e : Event)
    → Counted g sem s
    → OnSome (Counted g sem) (step g disk fs s e)
unfolding step handle
step-Counted g sem disk fs s (accept c) h = elim (Option-cases (g.add s.limit)) [
  | inl e ↦ rw (e, step) h
  | inr (l, e) ↦ rw (e, step) (accept-Counted g sem s c l h e)
]
step-Counted g sem disk fs s accept_error h = h
step-Counted g sem disk fs s (read k i) h = elim (Option-cases (get_elem? s.handlers k)) [
  | inl e ↦ rw (e, step) h
  | inr (c, e) ↦ rw (e, step) (handled c i e)
]
  where
    handled :
        (c : ℕ) (i : Incoming)
        → get_elem? s.handlers k ≡ some c
        → OnSome (Counted g sem) (handle g disk fs s k c i)
    handled c (request r) e = serve-Counted g sem disk fs s c r h
    handled c end_of_file e = close_handler-Counted g sem s k c h e
    handled c malformed e =
        let closed = close_handler-Counted g sem s k c h e in
        record { held = closed.held; room = closed.room; at_most = closed.at_most }

run-Counted_from :
    (g : GoLimit) (sem : IsSemaphore g) (disk : Disk) (fs : List StoredFile → FileSystem)
    (s : Server g) (es : List Event)
    → Counted g sem s
    → OnSome (Counted g sem) (run g disk fs s es)
unfolding run
run-Counted_from g sem disk fs s [] h = h
run-Counted_from g sem disk fs s (e ∷ es) h =
    after (step g disk fs s e) (step-Counted g sem disk fs s e h)
      (λ s' h'. run-Counted_from g sem disk fs s' es h')
  where
    after :
        (o : Option (Server g))
        → OnSome (Counted g sem) o
        → ((s' : Server g) → Counted g sem s' → OnSome (Counted g sem) (run g disk fs s' es))
        → OnSome (Counted g sem) (elim o [ none ↦ none | some s' ↦ run g disk fs s' es ])
    after none x k = tt
    after (some s') x k = k s' x

-- However connections come, send requests and end, as long as no handler panics: at most ten
-- connections have a handler, and the semaphore has one holder for each of them, so that every place
-- is given back. (`golimit` is a semaphore.)
pub run-Counted :
    (g : GoLimit) (sem : IsSemaphore g) (disk : Disk) (fs : List StoredFile → FileSystem)
    (files : List StoredFile) (es : List Event) (s' : Server g)
    → run g disk fs (listen_and_serve g files) es ≡ some s'
    → Counted g sem s'
unfolding listen_and_serve
run-Counted g sem disk fs files es s' e = subst (OnSome (Counted g sem)) e (
    run-Counted_from g sem disk fs (listen_and_serve g files) es
      (record { held = sem.none_at_first 10; room = sem.room_at_first 10; at_most = omega arith }))
