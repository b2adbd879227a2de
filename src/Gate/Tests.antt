-- ===== src/Gate/Tests.antt =====
-- Requests to the gate at concrete texts.
use sakura_chat_server.Prelude.{
  ◌++◌, ◌≡◌, refl, Text, ascii, false, none, some, List, [], ◌∷◌, arith,
}
use sakura_chat_server.Gate.{
  url_encode, url_decode, pre_parse_get_param, Handlers, get, other_method, handle_request,
}
use sakura_chat_server.Gate.Query.{query_of, put_all, pre_parse_get_param-query_of}

encoded : url_encode (ascii "a b&/") ≡ ascii "a+b%26%2F"
unfolding url_encode ascii
encoded = refl

decoded : url_decode (ascii "a%2f%4A+~") ≡ some (ascii "a/J ~")
unfolding url_decode ascii
decoded = refl

cut_short : url_decode (ascii "ab%2") ≡ none
unfolding url_decode ascii
cut_short = refl

not_hex : url_decode (ascii "%2G") ≡ none
unfolding url_decode ascii
not_hex = refl

-- The bytes of "a&" and one above the ASCII range.
abbrev odd_bytes : Text
odd_bytes = 97 ∷ 38 ∷ 255 ∷ []

abbrev two_params : List (Text × Text)
two_params = (ascii "k", odd_bytes) ∷ (ascii "=", ascii "?") ∷ []

pre_parse_get_param-query_of_example :
    pre_parse_get_param (ascii "/get" ++ b'?' ∷ query_of two_params)
    ≡ some (record { get_url = ascii "/get"; get_params = put_all two_params [] })
unfolding ascii
pre_parse_get_param-query_of_example =
    pre_parse_get_param-query_of (ascii "/get") two_params (refl, (refl, (refl, (refl, tt))))
      (
        ((omega arith, tt), (omega arith, (omega arith, (omega arith, tt)))),
        (((omega arith, tt), (omega arith, tt)), tt),
      )

abbrev no_handlers : Handlers
no_handlers = record { handle_get = λ url params r. (false, r); handle_post = λ url r. (false, r) }

bad_escape : (handle_request no_handlers get (ascii "/get?k=%zz")).result ≡ 400
unfolding handle_request ascii
bad_escape = refl

not_allowed : (handle_request no_handlers other_method (ascii "/get")).result ≡ 405
unfolding handle_request ascii
not_allowed = refl
