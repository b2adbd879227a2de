-- ===== src/Gate/Query.antt =====
-- The queries that `PreParseGetParam` reads (GateServer/src/HttpConnection.cpp), as they are written
-- with `UrlEncode`.
use sakura_chat_server.Prelude.{
  ℕ, ◌/◌, ◌%◌, ◌<◌, ◌≡◌, refl, Text, Bool, true, false, some, [], ◌∷◌, ◌++◌, All, All-imp, arith,
  ◌==◌, if◌then◌else◌,
}
use sakura_chat_server.Gate.{
  to_hex, is_alnum, is_unreserved, encode_byte, url_encode, split_at, first_piece, pieces, Params,
  put_decoded, put_split, put_pair, put_pairs, target_with, parse_split, pre_parse_get_param,
}
use sakura_chat_server.Gate.Codec.{IsByte, url_decode-url_encode}

-- One parameter, as a query writes it.
unfoldable pub query_pair : Text × Text → Text
query_pair p = url_encode p.0 ++ b'=' ∷ url_encode p.1

-- A query of some parameters.
unfoldable pub query_of : Params → Text
unfolding query_pair
query_of [] = []
query_of (p ∷ []) = query_pair p
query_of (p ∷ q ∷ ps) = query_pair p ++ b'&' ∷ query_of (q ∷ ps)

-- The parameters in the order in which they are put, the last one first.
unfoldable pub put_all : Params → Params → Params
put_all [] acc = acc
put_all (p ∷ ps) acc = put_all ps (p ∷ acc)

abbrev Differs : ℕ → ℕ → Type 0
Differs b c = (c == b) ≡ false

-- Neither of the two bytes that divide a query.
abbrev Clean : ℕ → Type 0
Clean c = Differs b'&' c × Differs b'=' c

split_at-found :
    (b : ℕ) (xs ys : Text) → All (Differs b) xs → split_at b (xs ++ b ∷ ys) ≡ some (xs, ys)
unfolding split_at
split_at-found b [] ys h = let same : (b == b) ≡ true = ground arith in rw same refl
split_at-found b (x ∷ xs) ys (h, hs) = rw (h, split_at-found b xs ys hs) refl

pieces-last : (xs : Text) → All (Differs b'&') xs → pieces xs ≡ xs ∷ []
unfolding pieces first_piece
pieces-last [] h = refl
pieces-last (x ∷ xs) (h, hs) = rw (h, pieces-last xs hs) refl

pieces-cut : (xs ys : Text) → All (Differs b'&') xs → pieces (xs ++ b'&' ∷ ys) ≡ xs ∷ pieces ys
unfolding pieces first_piece
pieces-cut [] ys h = refl
pieces-cut (x ∷ xs) ys (h, hs) = rw (h, pieces-cut xs ys hs) refl

All-append : (P : ℕ → Type 0) (xs ys : Text) → All P xs → All P ys → All P (xs ++ ys)
All-append P [] ys h k = k
All-append P (x ∷ xs) ys (h, hs) k = (h, All-append P xs ys hs k)

unreserved-Clean : (c : ℕ) → is_unreserved c ≡ true → Clean c
unfolding is_unreserved is_alnum
unreserved-Clean c h = ground arith

to_hex-Clean : (x : ℕ) → x < 16 → Clean (to_hex x)
unfolding to_hex
to_hex-Clean x h = grind arith

encode_byte-Clean : (c : ℕ) → IsByte c → All Clean (encode_byte c)
unfolding encode_byte
encode_byte-Clean c h = go (is_unreserved c) (c == b' ') refl
  where
    go :
        (u s : Bool)
        → is_unreserved c ≡ u
        → All Clean (
            if u
            then c ∷ []
            else if s
            then b'+' ∷ []
            else b'%' ∷ to_hex (c / 16) ∷ to_hex (c % 16) ∷ [])
    go true s u = (unreserved-Clean c u, tt)
    go false true u = ((refl, refl), tt)
    go false false u = (
      (refl, refl),
      (to_hex-Clean (c / 16) (omega arith), (to_hex-Clean (c % 16) (omega arith), tt)),
    )

url_encode-Clean : (s : Text) → All IsByte s → All Clean (url_encode s)
unfolding url_encode
url_encode-Clean [] h = tt
url_encode-Clean (c ∷ cs) (h, hs) =
    All-append Clean _ _ (encode_byte-Clean c h) (url_encode-Clean cs hs)

-- Keys and values are texts of bytes.
abbrev pub Encodable : Text × Text → Type 0
Encodable p = All IsByte p.0 × All IsByte p.1

query_pair-whole : (p : Text × Text) → Encodable p → All (Differs b'&') (query_pair p)
unfolding query_pair
query_pair-whole p (k, v) =
    All-append (Differs b'&') _ _
      (All-imp Clean (Differs b'&') (λ x c. c.0) _ (url_encode-Clean p.0 k))
      (refl, All-imp Clean (Differs b'&') (λ x c. c.0) _ (url_encode-Clean p.1 v))

put_pair-query_pair :
    (p : Text × Text) (ps : Params) → Encodable p → put_pair (query_pair p) ps ≡ some (p ∷ ps)
unfolding put_pair query_pair put_split put_decoded
put_pair-query_pair p ps (k, v) =
    rw
      (
        split_at-found b'=' (url_encode p.0) (url_encode p.1)
            (All-imp Clean (Differs b'=') (λ x c. c.1) _ (url_encode-Clean p.0 k)),
        url_decode-url_encode p.0 k,
        url_decode-url_encode p.1 v,
      )
      refl

put_pairs-query_of :
    (ps acc : Params)
    → All Encodable ps
    → put_pairs (pieces (query_of ps)) acc ≡ some (put_all ps acc)
unfolding put_pairs query_of put_all pieces put_pair put_split split_at
put_pairs-query_of [] acc h = refl
put_pairs-query_of (p ∷ []) acc (h, hs) =
    rw (pieces-last (query_pair p) (query_pair-whole p h), put_pairs, put_pair-query_pair p acc h)
      refl
put_pairs-query_of (p ∷ q ∷ ps) acc (h, hs) =
    rw
      (
        pieces-cut (query_pair p) (query_of (q ∷ ps)) (query_pair-whole p h),
        put_pairs,
        put_pair-query_pair p acc h,
      )
      (put_pairs-query_of (q ∷ ps) (p ∷ acc) hs)

-- A target of a URL without `?` and a query written with `UrlEncode` is read back: the URL, and the
-- parameters, the last one first.
pub pre_parse_get_param-query_of :
    (url : Text) (ps : Params)
    → All (λ c. (c == b'?') ≡ false) url
    → All Encodable ps
    → pre_parse_get_param (url ++ b'?' ∷ query_of ps)
      ≡ some (record { get_url = url; get_params = put_all ps [] })
unfolding pre_parse_get_param parse_split target_with
pre_parse_get_param-query_of url ps u h =
    rw (split_at-found b'?' url (query_of ps) u, put_pairs-query_of ps [] h) refl
