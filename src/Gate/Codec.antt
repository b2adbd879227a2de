-- ===== src/Gate/Codec.antt =====
-- `UrlEncode` and then `UrlDecode` (GateServer/src/HttpConnection.cpp).
use sakura_chat_server.Prelude.{
  ℕ, ◌+◌, ◌*◌, ◌/◌, ◌%◌, ◌<◌, ◌≡◌, refl, ap, ◌∙◌, Text, Bool, true, false, some, [], ◌∷◌, ◌++◌, All,
  arith, ◌==◌, if◌then◌else◌,
}
use sakura_chat_server.Gate.{
  to_hex, from_hex, is_alnum, is_unreserved, encode_byte, url_encode, append_to, decode_escape,
  url_decode,
}

abbrev pub IsByte : ℕ → Type 0
IsByte c = c < 256

from_hex-to_hex : (x : ℕ) → x < 16 → from_hex (to_hex x) ≡ some x
unfolding from_hex to_hex
from_hex-to_hex x h = grind arith

-- A byte that is no escape is decoded by itself.
decode-plain :
    (c : ℕ) (cs : Text)
    → (c == b'+') ≡ false
    → (c == b'%') ≡ false
    → url_decode (c ∷ cs) ≡ append_to c (url_decode cs)
unfolding url_decode append_to
decode-plain c [] p q = rw (p, q) refl
decode-plain c (d ∷ []) p q = rw (p, q) refl
decode-plain c (d ∷ e ∷ cs) p q = rw (p, q) refl

decode-plus : (cs : Text) → url_decode (b'+' ∷ cs) ≡ append_to b' ' (url_decode cs)
unfolding url_decode append_to
decode-plus [] = refl
decode-plus (d ∷ []) = refl
decode-plus (d ∷ e ∷ cs) = refl

unreserved-plain : (c : ℕ) → is_unreserved c ≡ true → ((c == b'+') ≡ false) × ((c == b'%') ≡ false)
unfolding is_unreserved is_alnum
unreserved-plain c h = ground arith

decode-hex :
    (c : ℕ) (t : Text)
    → IsByte c
    → url_decode (b'%' ∷ to_hex (c / 16) ∷ to_hex (c % 16) ∷ t) ≡ append_to c (url_decode t)
unfolding url_decode decode_escape append_to
decode-hex c t h =
    let high : c / 16 < 16 = omega arith in
    let low : c % 16 < 16 = omega arith in
    let whole : (c / 16 * 16 + c % 16) % 256 ≡ c = omega arith in
    rw (from_hex-to_hex (c / 16) high, from_hex-to_hex (c % 16) low)
      (ap (λ x. append_to x (url_decode t)) whole)

-- What is appended for a byte is decoded to the byte, whatever follows.
decode-encode_byte :
    (c : ℕ) (t : Text) → IsByte c → url_decode (encode_byte c ++ t) ≡ append_to c (url_decode t)
unfolding encode_byte
decode-encode_byte c t h = go (is_unreserved c) (c == b' ') refl refl
  where
    go :
        (u s : Bool)
        → is_unreserved c ≡ u
        → (c == b' ') ≡ s
        → url_decode (
            (if u
              then c ∷ []
              else if s
              then b'+' ∷ []
              else b'%' ∷ to_hex (c / 16) ∷ to_hex (c % 16) ∷ [])
            ++ t)
          ≡ append_to c (url_decode t)
    go true s u e = let p = unreserved-plain c u in decode-plain c t p.0 p.1
    go false true u e =
        let space : b' ' ≡ c = ground arith in
        decode-plus t ∙ ap (λ x. append_to x (url_decode t)) space
    go false false u e = decode-hex c t h

-- Every text of bytes is decoded from its encoding.
pub url_decode-url_encode : (s : Text) → All IsByte s → url_decode (url_encode s) ≡ some s
unfolding url_encode url_decode append_to
url_decode-url_encode [] h = refl
url_decode-url_encode (c ∷ cs) (h, hs) =
    decode-encode_byte c (url_encode cs) h ∙ ap (append_to c) (url_decode-url_encode cs hs)
