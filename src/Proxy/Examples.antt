-- ===== src/Proxy/Examples.antt =====
-- The proxy in front of the web server, with one GET request and one DELETE request.
use tda596_distributed_syste.Prelude.{◌≡◌, refl, true, Option, none, some, [], ◌∷◌, ◌++◌, String}
use tda596_distributed_syste.WebServer.{FileSystem, get_handler}
use tda596_distributed_syste.Proxy.{
  HttpRequest, HttpResponse, message, ServerAnswer, answers, Round, eof, empty_response,
  handle_client_request,
}
use tda596_distributed_syste.Proxy.Laws.{
  AllGet, answers_of, requests_of, handle_client_request_passes_on,
}

abbrev one_page : FileSystem
one_page = record {
  pwd = "/srv";
  stat = λ url. none;
  can_open = λ url. true;
  read_dir = λ url. none;
  read_all = λ url. none;
  detect = λ url. none;
}

abbrev a_request : String → HttpRequest
a_request method = record { method = method; url = "/a.txt"; header = ("Accept", "*" ∷ []) ∷ [] }

-- A text is taken as the method of a request for one page.
abbrev parse : String → Option HttpRequest
parse text = some (a_request text)

abbrev bare : String → Option HttpRequest
bare url = some (record { method = "GET"; url = url; header = [] })

abbrev web : HttpRequest → ServerAnswer
web q =
    let r = get_handler one_page q.url in
    answers (record (empty_response r.status) { body = r.body })

abbrev round : String → Round
round text = record { input = message text; server = web; delivered = true }

abbrev over : Round
over = record { input = eof; server = web; delivered = true }

abbrev got : HttpResponse
got = let r = get_handler one_page "/a.txt" in record (empty_response r.status) { body = r.body }

one_get : AllGet parse bare (round "GET" ∷ [])
one_get = (
  record {
    text = "GET";
    request = a_request "GET";
    fresh = record { method = "GET"; url = "/a.txt"; header = [] };
    answer = got;
    reads = refl;
    parses = refl;
    is_get = refl;
    is_map = (tt, tt);
    makes = refl;
    bare = refl;
    replies = refl;
    arrives = refl;
  },
  tt,
)

handle_client_request_passes_on_example :
    let t = handle_client_request parse bare (over ∷ []) in
    let all = handle_client_request parse bare (round "GET" ∷ over ∷ []) in
    (all.to_client ≡ answers_of parse bare (round "GET" ∷ []) one_get ++ t.to_client)
    × (all.to_server ≡ requests_of parse bare (round "GET" ∷ []) one_get ++ t.to_server)
    × (all.end ≡ t.end)
handle_client_request_passes_on_example =
    handle_client_request_passes_on parse bare (round "GET" ∷ []) (over ∷ []) one_get
