-- ===== src/Proxy/Laws.antt =====
-- What the proxy passes on, and how it ends.
use text.Mathlib.Text.{◌==◌ as str_eq}
use tda596_distributed_syste.Prelude.{
  append-[], ℕ, zero, suc, ◌+◌, ◌<◌, ◌≡◌, refl, sym, ap, ◌∙◌, Bool, true, false, ◌||◌, Option, some,
  List, [], ◌∷◌, ◌++◌, String, arith,
}
use tda596_distributed_syste.Proxy.{
  Header, HttpRequest, HttpResponse, message, answers, Round, returned, Trace, empty_response,
  stop_with, delivered_first, copy_header, put_header, exchange, forward, handle_message,
  handle_client_request, test_conn,
}

abbrev pub HasNoName : String → Header → Type 0
HasNoName k [] = Unit {0}
HasNoName k ((k', v) ∷ h) = (str_eq k' k ≡ false) × HasNoName k h

-- No name of the first header is one of the second.
abbrev pub Apart : Header → Header → Type 0
Apart [] to = Unit {0}
Apart ((k, v) ∷ from) to = HasNoName k to × Apart from to

-- No name comes twice.
abbrev pub IsMap : Header → Type 0
IsMap [] = Unit {0}
IsMap ((k, v) ∷ h) = Apart h ((k, v) ∷ []) × IsMap h

put_header-new :
    (h : Header) (k : String) (v : List String)
    → HasNoName k h
    → put_header h k v ≡ h ++ (k, v) ∷ []
unfolding put_header
put_header-new [] k v e = refl
put_header-new ((k', v') ∷ h) k v e = rw e.0 (ap (◌∷◌ (k', v')) (put_header-new h k v e.1))

HasNoName-append :
    (k : String) (h h' : Header) → HasNoName k h → HasNoName k h' → HasNoName k (h ++ h')
HasNoName-append k [] h' a b = b
HasNoName-append k ((k', v) ∷ h) h' a b = (a.0, HasNoName-append k h h' a.1 b)

Apart-append : (from to to' : Header) → Apart from to → Apart from to' → Apart from (to ++ to')
Apart-append [] to to' a b = tt
Apart-append ((k, v) ∷ from) to to' a b =
    (HasNoName-append k to to' a.0 b.0, Apart-append from to to' a.1 b.1)

append_one {ℓ} :
    {A : Type ℓ} (xs : List A) (x : A) (ys : List A) → (xs ++ x ∷ []) ++ ys ≡ xs ++ x ∷ ys
append_one [] x ys = refl
append_one (y ∷ xs) x ys = ap (◌∷◌ y) (append_one xs x ys)

copy_header_onto :
    (from to : Header) → IsMap from → Apart from to → copy_header from to ≡ to ++ from
unfolding copy_header
copy_header_onto [] to m a = sym (append-[] to)
copy_header_onto ((k, v) ∷ from) to m a =
    ap (copy_header from) (put_header-new to k v a.0)
    ∙ copy_header_onto from (to ++ (k, v) ∷ []) m.1 (Apart-append from to ((k, v) ∷ []) a.1 m.0)
    ∙ append_one to (k, v) from

Apart-empty : (h : Header) → Apart h []
Apart-empty [] = tt
Apart-empty ((k, v) ∷ h) = (tt, Apart-empty h)

copy_header_all : (h : Header) → IsMap h → copy_header h [] ≡ h
copy_header_all h m = copy_header_onto h [] m (Apart-empty h)

module _ (read_request : String → Option HttpRequest)
    (new_request : String → Option HttpRequest) where
  -- A round in which a GET comes from the client and is answered by the server: `request` is what the
  -- client sent, `sent` what the server gets.
  pub record GetRound (round : Round) : Type 0 where
    pub text : String
    pub request : HttpRequest
    pub fresh : HttpRequest
    pub answer : HttpResponse
    pub reads : round.input ≡ message text
    pub parses : read_request text ≡ some request
    pub is_get : str_eq request.method "GET" ≡ true
    pub is_map : IsMap request.header
    pub makes : new_request request.url ≡ some fresh
    pub bare : fresh.header ≡ []
    pub replies : round.server (record fresh { header = request.header }) ≡ answers answer
    pub arrives : round.delivered ≡ true

  abbrev pub AllGet : List Round → Type 0
  AllGet [] = Unit {0}
  AllGet (round ∷ rounds) = GetRound round × AllGet rounds

  -- A new response with the code, the length, the header and the body of the server's.
  abbrev pub passed_on : HttpResponse → HttpResponse
  passed_on a = record {
    status = "";
    status_code = a.status_code;
    proto = "";
    proto_major = 0;
    proto_minor = 0;
    content_length = a.content_length;
    header = a.header;
    body = a.body;
    transfer_encoding = [];
    trailer = [];
    close = false;
  }

  -- What is passed on of the server's answers, and what it was asked.
  abbrev pub answers_of : (rounds : List Round) → AllGet rounds → List HttpResponse
  answers_of [] h = []
  answers_of (round ∷ rounds) h = passed_on h.0.answer ∷ answers_of rounds h.1

  abbrev pub requests_of : (rounds : List Round) → AllGet rounds → List HttpRequest
  requests_of [] h = []
  requests_of (round ∷ rounds) h =
      record h.0.fresh { header = h.0.request.header } ∷ requests_of rounds h.1

  get_round :
      (round : Round) (rest : Trace) (h : GetRound round)
      → handle_message read_request new_request round h.text rest
        ≡ delivered_first (passed_on h.answer) (record h.fresh { header = h.request.header }) rest
  unfolding handle_message forward exchange
  get_round round rest h =
      let copied : copy_header h.request.header h.fresh.header ≡ h.request.header =
        rw h.bare (copy_header_all h.request.header h.is_map) in
      rw
        (
          h.parses, handle_message, h.is_get, h.makes, forward, copied, h.replies, exchange,
          h.arrives,
        )
        (ap (λ hd. delivered_first (passed_on h.answer) (record h.fresh { header = hd }) rest)
          copied)

  -- The rounds that went well, before what comes after them.
  abbrev pub followed_by : (rounds : List Round) → AllGet rounds → Trace → Trace
  followed_by [] h t = t
  followed_by (round ∷ rounds) h t =
      delivered_first (passed_on h.0.answer) (record h.0.fresh { header = h.0.request.header })
        (followed_by rounds h.1 t)

  followed_by_lem :
      (rounds : List Round) (h : AllGet rounds) (t : Trace)
      → ((followed_by rounds h t).to_client ≡ answers_of rounds h ++ t.to_client)
        × ((followed_by rounds h t).to_server ≡ requests_of rounds h ++ t.to_server)
        × ((followed_by rounds h t).end ≡ t.end)
  followed_by_lem [] h t = (refl, refl, refl)
  followed_by_lem (round ∷ rounds) h t =
      let (clients, servers, ends) = followed_by_lem rounds h.1 t in
      (
        ap (◌∷◌ (passed_on h.0.answer)) clients,
        ap (◌∷◌ (record h.0.fresh { header = h.0.request.header })) servers,
        ends,
      )

  handled :
      (rounds later : List Round) (h : AllGet rounds)
      → handle_client_request read_request new_request (rounds ++ later)
        ≡ followed_by rounds h (handle_client_request read_request new_request later)
  unfolding handle_client_request
  handled [] later h = refl
  handled (round ∷ rounds) later h =
      let rest = handle_client_request read_request new_request (rounds ++ later) in
      let next =
        ap
          (delivered_first (passed_on h.0.answer)
            (record h.0.fresh { header = h.0.request.header }))
          (handled rounds later h.1) in
      rw (h.0.reads, handle_client_request) (get_round round rest h.0 ∙ next)

  -- What the proxy passes on: as long as the client sends GET requests that can be parsed and the
  -- server answers them, the server gets a GET of each URL with the client's header, and the client
  -- gets, in the order of the answers, the status code, length, header and body of each, without its
  -- status text, protocol, transfer encoding, trailer and close mark; then comes what the later
  -- rounds do.
  pub handle_client_request_passes_on :
      (rounds later : List Round) (h : AllGet rounds)
      → let t = handle_client_request read_request new_request later in
        let all = handle_client_request read_request new_request (rounds ++ later) in
        (all.to_client ≡ answers_of rounds h ++ t.to_client)
        × (all.to_server ≡ requests_of rounds h ++ t.to_server)
        × (all.end ≡ t.end)
  handle_client_request_passes_on rounds later h =
      rw (handled rounds later h)
        (followed_by_lem rounds h (handle_client_request read_request new_request later))

  refused :
      (later : List Round) (round : Round) (text : String) (r : HttpRequest)
      → round.input ≡ message text
      → read_request text ≡ some r
      → str_eq r.method "GET" ≡ false
      → handle_client_request read_request new_request (round ∷ later)
        ≡ stop_with (empty_response 501 ∷ []) returned
  unfolding handle_client_request handle_message
  refused later round text r reads parses other =
      rw (reads, handle_client_request, parses, handle_message, other) refl

  -- Only GET requests are passed on: after any rounds that went well, a request with another method is
  -- answered with status 501, nothing of it reaches the server, and the loop ends, whatever the client
  -- sends later.
  other_method_refused :
      (rounds later : List Round) (round : Round) (text : String) (r : HttpRequest)
      (h : AllGet rounds)
      → round.input ≡ message text
      → read_request text ≡ some r
      → str_eq r.method "GET" ≡ false
      → let all = handle_client_request read_request new_request (rounds ++ round ∷ later) in
        (all.to_client ≡ answers_of rounds h ++ empty_response 501 ∷ [])
        × (all.to_server ≡ requests_of rounds h ++ [])
        × (all.end ≡ returned)
  other_method_refused rounds later round text r h reads parses other =
      let stop = refused later round text r reads parses other in
      let (out, asked, end) = handle_client_request_passes_on rounds (round ∷ later) h in
      (
        out ∙ ap (λ t. answers_of rounds h ++ t.to_client) stop,
        asked ∙ ap (λ t. requests_of rounds h ++ t.to_server) stop,
        end ∙ ap (λ t. t.end) stop,
      )

-- Whether one of so many lines is the acknowledgement.
abbrev pub acknowledged : (String → String) → ℕ → List String → Bool
acknowledged trim zero lines = false
acknowledged trim (suc n) [] = false
acknowledged trim (suc n) (line ∷ lines) = str_eq (trim line) "ACK" || acknowledged trim n lines

pub test_conn_lem :
    (trim : String → String) (left cnt : ℕ) (lines : List String)
    → left + cnt ≡ 3
    → 0 < left
    → test_conn trim cnt lines ≡ acknowledged trim left lines
unfolding test_conn
test_conn_lem trim zero cnt lines e h = absurd (omega arith)
test_conn_lem trim (suc left) cnt [] e h = refl
test_conn_lem trim (suc zero) cnt (line ∷ lines) e h = ground arith
test_conn_lem trim (suc (suc left)) cnt (line ∷ lines) e h =
    ground (arith, test_conn_lem trim (suc left) (cnt + 1) lines)
