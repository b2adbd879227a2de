-- ===== src/Gate.antt =====
-- GateServer/src/HttpConnection.cpp: the URL codec, the query parameters and the handling of a
-- request. An exception is `none`. The handlers of the logic system are arguments.
pub mod Codec
pub mod Query
pub mod Logic
pub mod Tests
use sakura_chat_server.Prelude.{
  ℕ, ◌+◌, ◌-◌, ◌*◌, ◌/◌, ◌%◌, Text, text_eq, ascii, Bool, true, false, not, ◌&&◌, ◌||◌, Option,
  none, some, List, [], ◌∷◌, ◌++◌, leb, ltb, ◌==◌, if◌then◌else◌,
}

-- `ToHex`
unfoldable pub to_hex : ℕ → ℕ
to_hex x = if ltb x 10 then (x + b'0') % 256 else (x - 10 + b'A') % 256

-- `FromHex`
unfoldable pub from_hex : ℕ → Option ℕ
from_hex x =
    if leb b'A' x && leb x b'F'
    then some (x - b'A' + 10)
    else if leb b'a' x && leb x b'f'
    then some (x - b'a' + 10)
    else if leb b'0' x && leb x b'9'
    then some (x - b'0')
    else none

-- `isalnum` in the C locale
unfoldable pub is_alnum : ℕ → Bool
is_alnum c =
    (leb b'0' c && leb c b'9') || ((leb b'A' c && leb c b'Z') || (leb b'a' c && leb c b'z'))

unfoldable pub is_unreserved : ℕ → Bool
unfolding is_alnum
is_unreserved c = is_alnum c || ((c == b'-') || ((c == b'_') || ((c == b'.') || (c == b'~'))))

-- What the loop of `UrlEncode` appends for a byte.
unfoldable pub encode_byte : ℕ → Text
unfolding is_unreserved to_hex
encode_byte c =
    if is_unreserved c
    then c ∷ []
    else if c == b' '
    then b'+' ∷ []
    else b'%' ∷ to_hex (c / 16) ∷ to_hex (c % 16) ∷ []

-- `UrlEncode`
unfoldable pub url_encode : Text → Text
unfolding encode_byte
url_encode [] = []
url_encode (c ∷ cs) = encode_byte c ++ url_encode cs

unfoldable pub append_to : ℕ → Option Text → Option Text
append_to c none = none
append_to c (some t) = some (c ∷ t)

-- The byte of an escape, and the rest after it.
unfoldable pub decode_escape : Option ℕ → Option ℕ → Option Text → Option Text
unfolding append_to
decode_escape none low rest = none
decode_escape (some high) none rest = none
decode_escape (some high) (some low) rest = append_to ((high * 16 + low) % 256) rest

-- `UrlDecode`: an escape needs three bytes, and two hexadecimal digits.
unfoldable pub url_decode : Text → Option Text
unfolding append_to decode_escape from_hex
url_decode [] = some []
url_decode (c ∷ []) =
    if c == b'+' then some (b' ' ∷ []) else if c == b'%' then none else some (c ∷ [])
url_decode (c ∷ d ∷ []) =
    let rest = url_decode (d ∷ []) in
    if c == b'+' then append_to b' ' rest else if c == b'%' then none else append_to c rest
url_decode (c ∷ d ∷ e ∷ cs) =
    let rest = url_decode (d ∷ e ∷ cs) in
    let after = url_decode cs in
    if c == b'+'
    then append_to b' ' rest
    else if c == b'%'
    then decode_escape (from_hex d) (from_hex e) after
    else append_to c rest

-- `find` of a byte, with what stands before it and after it.
unfoldable pub split_at : ℕ → Text → Option (Text × Text)
split_at b [] = none
split_at b (c ∷ cs) =
    let rest = split_at b cs in
    if c == b then some ([], cs) else elim rest [ none ↦ none | some p ↦ some (c ∷ p.0, p.1) ]

unfoldable pub first_piece : ℕ → List Text → List Text
first_piece c [] = (c ∷ []) ∷ []
first_piece c (p ∷ ps) = (c ∷ p) ∷ ps

-- The pairs that the loop over the query cuts at `&`, the one after the last `&` included.
unfoldable pub pieces : Text → List Text
unfolding first_piece
pieces [] = [] ∷ []
pieces (c ∷ cs) = let rest = pieces cs in if c == b'&' then [] ∷ rest else first_piece c rest

-- `_get_params`: the entries in the order in which they are put, the last one first, so that the first
-- entry of a key is the value that the map has.
abbrev pub Params : Type 0
Params = List (Text × Text)

unfoldable pub put_decoded : Option Text → Option Text → Params → Option Params
put_decoded none value ps = none
put_decoded (some k) none ps = none
put_decoded (some k) (some v) ps = some ((k, v) ∷ ps)

-- One pair: without a `=` it is passed over.
unfoldable pub put_split : Option (Text × Text) → Params → Option Params
unfolding put_decoded url_decode
put_split none ps = some ps
put_split (some (k, v)) ps = put_decoded (url_decode k) (url_decode v) ps

unfoldable pub put_pair : Text → Params → Option Params
unfolding put_split split_at
put_pair pair ps = put_split (split_at b'=' pair) ps

unfoldable pub put_pairs : List Text → Params → Option Params
unfolding put_pair
put_pairs [] ps = some ps
put_pairs (pair ∷ rest) ps = elim (put_pair pair ps) [ none ↦ none | some ps1 ↦ put_pairs rest ps1 ]

-- `_get_url` and `_get_params`
pub record Target : Type 0 where
  pub get_url : Text
  pub get_params : Params

unfoldable pub target_with : Text → Option Params → Option Target
target_with url none = none
target_with url (some ps) = some (record { get_url = url; get_params = ps })

unfoldable pub parse_split : Text → Option (Text × Text) → Option Target
unfolding put_pairs pieces target_with
parse_split uri none = some (record { get_url = uri; get_params = [] })
parse_split uri (some (url, query)) = target_with url (put_pairs (pieces query) [])

-- `PreParseGetParam`, on a connection that has no parameters.
unfoldable pub pre_parse_get_param : Text → Option Target
unfolding parse_split split_at
pre_parse_get_param uri = parse_split uri (split_at b'?' uri)

pub data Method : Type 0 where
  get post other_method : Method

pub record Response : Type 0 where
  pub result : ℕ
  pub keep_alive : Bool
  pub content_type : Option Text
  pub server : Option Text
  pub allow : Option Text
  pub body : Text

abbrev pub fresh : Response
fresh = record {
  result = 200;
  keep_alive = false;
  content_type = none;
  server = none;
  allow = none;
  body = [];
}

-- A status with a text as the body.
abbrev pub plain_text : ℕ → Text → Response → Response
plain_text code text r = record r {
  result = code;
  content_type = some (ascii "text/plain");
  body = r.body ++ text;
}

unfoldable pub answer_handled : Bool × Response → Response
answer_handled (true, r) = record r { result = 200; server = some (ascii "GateServer") }
answer_handled (false, r) = plain_text 404 (ascii "url not found" ++ 13 ∷ 10 ∷ []) r

-- The handlers of `LogicSystem`: whether the URL is known, and the response with what they write.
pub record Handlers : Type 0 where
  pub handle_get : Text → Params → Response → Bool × Response
  pub handle_post : Text → Response → Bool × Response

unfoldable pub handle_parsed : Handlers → Option Target → Response
unfolding answer_handled
handle_parsed h none = plain_text 400 (ascii "Invalid request target") fresh
handle_parsed h (some t) = answer_handled (h.handle_get t.get_url t.get_params fresh)

-- `HandleRequest`: the response that `WriteResponse` is called with.
unfoldable pub handle_request : Handlers → Method → Text → Response
unfolding handle_parsed answer_handled pre_parse_get_param
handle_request h get uri = handle_parsed h (pre_parse_get_param uri)
handle_request h post uri = answer_handled (h.handle_post uri fresh)
handle_request h other_method uri = record fresh { result = 405; allow = some (ascii "GET, POST") }
