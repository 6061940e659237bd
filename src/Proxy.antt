-- ===== src/Proxy.antt =====
-- Lab1/Proxy/main.go and tools.go: the proxy in front of the HTTP server.
pub mod Laws
mod Examples
use Prim.Native.String
use text.Mathlib.Text.{◌==◌ as str_eq}
use tda596_distributed_syste.Prelude.{
  ℕ, zero, suc, ◌+◌, ◌==◌, if◌then◌else◌, Bool, true, false, ◌&&◌, ◌||◌, Option, none, some, List,
  [], ◌∷◌, String,
}
use tda596_distributed_syste.Prelude.Int.{ℤ, pos}
use tda596_distributed_syste.Prelude.Text.{◌&◌, split}
use tda596_distributed_syste.WebServer.{is_port}

-- The parts of an address, `ip:port` or `port`; `otherwise` is the answer to any other number of
-- parts.
abbrev pub check_parts :
    (String → String)
    → (String → Option ℤ)
    → (String → Bool)
    → String
    → String
    → List String
    → String
check_parts trim atoi is_ip whole otherwise (port ∷ []) =
    if is_port (atoi (trim port)) then "localhost:" & port else "-1"
check_parts trim atoi is_ip whole otherwise (ip ∷ port ∷ []) =
    if (str_eq ip "localhost" || is_ip ip) && is_port (atoi (trim port)) then whole else "-1"
check_parts trim atoi is_ip whole otherwise _ = otherwise

-- `GetAddr` on the arguments after the program's name.
pub get_addr : (String → String) → (String → Option ℤ) → (String → Bool) → List String → String
get_addr trim atoi is_ip (arg ∷ []) =
    check_parts trim atoi is_ip arg "localhost:8081" (split b':' arg)
get_addr trim atoi is_ip _ = "localhost:8081"

-- `TestConn` on the lines that can be read, after `cnt` others; their end is an error.
pub test_conn : (String → String) → ℕ → List String → Bool
test_conn trim cnt [] = false
test_conn trim cnt (line ∷ lines) =
    let rest = test_conn trim (cnt + 1) lines in
    if str_eq (trim line) "ACK" then true else if cnt + 1 == 3 then false else rest

drop_last : String → String
drop_last String.[] = ""
drop_last (String.◌∷◌ c String.[]) = ""
drop_last (String.◌∷◌ c (String.◌∷◌ d s)) = String.◌∷◌ c (drop_last (String.◌∷◌ d s))

-- `main`: the server's address, of which the last byte is cut off; `none` is a panic, when nothing
-- could be read.
pub host_address : String → Option String
unfolding drop_last
host_address text = if str_eq text "" then none else some (drop_last text)

-- A map from names to values, by its entries.
abbrev pub Header : Type 0
Header = List (String × List String)

-- `header[k] = v`
pub put_header : Header → String → List String → Header
put_header [] k v = (k, v) ∷ []
put_header ((k', v') ∷ h) k v =
    let rest = put_header h k v in if str_eq k' k then (k, v) ∷ h else (k', v') ∷ rest

pub record HttpRequest : Type 0 where
  pub method : String
  pub url : String
  pub header : Header

pub record HttpResponse : Type 0 where
  pub status : String
  pub status_code : ℕ
  pub proto : String
  pub proto_major : ℕ
  pub proto_minor : ℕ
  pub content_length : ℤ
  pub header : Header
  pub body : Option String
  pub transfer_encoding : List String
  pub trailer : Header
  pub close : Bool

-- What `client.Read` gives.
pub data ClientRead : Type 0 where
  message : String → ClientRead
  eof : ClientRead
  read_error : ClientRead

-- What becomes of a request that is written to the server.
pub data ServerAnswer : Type 0 where
  answers : HttpResponse → ServerAnswer
  write_failed : ServerAnswer
  response_error : ServerAnswer

-- One round of the loop: what can be read from the client, how the server answers, and whether the
-- answer can be written to the client.
pub record Round : Type 0 where
  pub input : ClientRead
  pub server : HttpRequest → ServerAnswer
  pub delivered : Bool

-- How the loop ends: both connections are closed, it returns, or it waits for more to read.
pub data End : Type 0 where
  closed returned waiting : End

pub record Trace : Type 0 where
  pub to_client : List HttpResponse
  pub to_server : List HttpRequest
  pub end : End

-- A new response with a status, `&http.Response{}` otherwise.
abbrev pub empty_response : ℕ → HttpResponse
empty_response status = record {
  status = "";
  status_code = status;
  proto = "";
  proto_major = 0;
  proto_minor = 0;
  content_length = pos 0;
  header = [];
  body = none;
  transfer_encoding = [];
  trailer = [];
  close = false;
}

abbrev pub stop_with : List HttpResponse → End → Trace
stop_with out end = record { to_client = out; to_server = []; end = end }

-- The loop that copies the client's header.
pub copy_header : Header → Header → Header
copy_header [] to = to
copy_header ((k, v) ∷ from) to = copy_header from (put_header to k v)

-- A round whose answer was delivered, before the others.
abbrev pub delivered_first : HttpResponse → HttpRequest → Trace → Trace
delivered_first a q t = record {
  to_client = a ∷ t.to_client;
  to_server = q ∷ t.to_server;
  end = t.end;
}

-- The part of a round after the request for the server is made. `rest` is what the later rounds do.
exchange : Round → HttpRequest → Trace → Trace
exchange round q rest = elim (round.server q) [
  | write_failed ↦ stop_with (empty_response 500 ∷ []) returned
  | response_error ↦ record {
    to_client = empty_response 500 ∷ [];
    to_server = q ∷ [];
    end = returned;
  }
  | answers a ↦
      if round.delivered
      then delivered_first
          (record (empty_response 0) {
            status_code = a.status_code;
            content_length = a.content_length;
            header = a.header;
            body = a.body;
          })
          q rest
      else record { to_client = []; to_server = q ∷ []; end = returned }
]

-- `read_request` is `http.ReadRequest` and `new_request` is `http.NewRequest` for a GET.
module _ (read_request : String → Option HttpRequest)
    (new_request : String → Option HttpRequest) where
  forward : Round → HttpRequest → Trace → Trace
  unfolding exchange copy_header put_header
  forward round r rest = elim (new_request r.url) [
    | none ↦ stop_with (empty_response 500 ∷ []) returned
    | some q ↦ exchange round (record q { header = copy_header r.header q.header }) rest
  ]

  pub handle_message : Round → String → Trace → Trace
  unfolding forward
  handle_message round m rest = elim (read_request m) [
    | none ↦ stop_with [] returned
    | some r ↦
        if str_eq r.method "GET"
        then forward round r rest
        else stop_with (empty_response 501 ∷ []) returned
  ]

  pub handle_client_request : List Round → Trace
  handle_client_request [] = stop_with [] waiting
  handle_client_request (round ∷ rounds) =
      let rest = handle_client_request rounds in
      elim round.input [
        | eof ↦ stop_with [] closed
        | read_error ↦ stop_with [] returned
        | message m ↦ handle_message round m rest
      ]
