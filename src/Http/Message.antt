-- ===== src/Http/Message.antt =====
-- http/http_message.h and http/http_message.cpp: requests and responses.
use lightnet.Common.{
  if◌then◌else◌, bytes_eq, length, codes, ℕ, Bool, true, false, not, Option, none, some, List, [],
  ◌∷◌, ◌++◌, map,
}
use lightnet.Http.Text.{tolower, to_string, Headers, lookup, insert}

pub record HttpRequest : Type 0 where
  pub method : List ℕ
  pub path : List ℕ
  pub version : List ℕ
  pub headers : Headers
  pub body : List ℕ

abbrev pub empty_request : HttpRequest
empty_request = record { method = []; path = []; version = []; headers = []; body = [] }

-- Equality but for the case of letters.
unfoldable same_but_case : List ℕ → List ℕ → Bool
unfolding tolower bytes_eq
same_but_case k key = bytes_eq (map tolower k) (map tolower key)

unfoldable lookup_but_case : List ℕ → Headers → Option (List ℕ)
unfolding same_but_case
lookup_but_case key [] = none
lookup_but_case key ((k, v) ∷ hs) = if same_but_case k key then some v else lookup_but_case key hs

abbrev or_else {ℓ} : {A : Type ℓ} → Option A → A → A
or_else (some v) d = v
or_else none d = d

-- The exact name first, then the first entry that differs in case only.
unfoldable pub get_header : HttpRequest → List ℕ → List ℕ → List ℕ
unfolding lookup lookup_but_case
get_header r key default_val = elim (lookup key r.headers) [
  | some v ↦ v
  | none ↦ or_else (lookup_but_case key r.headers) default_val
]

abbrev pub is_empty : List ℕ → Bool
is_empty [] = true
is_empty (c ∷ cs) = false

unfoldable pub request_keep_alive : HttpRequest → Bool
unfolding get_header
request_keep_alive r =
    let conn = get_header r (codes "Connection") [] in
    if not (is_empty conn)
    then not (bytes_eq conn (codes "close"))
    else bytes_eq r.version (codes "HTTP/1.1")

pub record HttpResponse : Type 0 where
  pub status_code : ℕ
  pub status_message : List ℕ
  pub headers : Headers
  pub body : List ℕ

abbrev pub ok_response : HttpResponse
ok_response = record { status_code = 200; status_message = codes "OK"; headers = []; body = [] }

pub set_content_type : HttpResponse → List ℕ → HttpResponse
unfolding insert
set_content_type r type = record r { headers = insert (codes "Content-Type") type r.headers }

pub set_body : HttpResponse → List ℕ → HttpResponse
unfolding insert to_string
set_body r content = record r {
  body = content;
  headers = insert (codes "Content-Length") (to_string (length content)) r.headers;
}

abbrev pub crlf : List ℕ
crlf = 13 ∷ 10 ∷ []

unfoldable pub header_lines : Headers → List ℕ
header_lines [] = []
header_lines ((k, v) ∷ hs) = k ++ (codes ": " ++ (v ++ (crlf ++ header_lines hs)))

pub serialize : HttpResponse → List ℕ
unfolding header_lines to_string
serialize r =
    codes "HTTP/1.1 "
    ++ (to_string r.status_code
        ++ (codes " "
            ++ (r.status_message ++ (crlf ++ (header_lines r.headers ++ (crlf ++ r.body))))))
