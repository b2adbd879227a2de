-- ===== src/PrivateChat.antt =====
-- Common/include/PrivateChatWire.h: which requests of the private chat are well formed. jsoncpp's
-- reading of a body is given: a member that is not of the type that is asked for is `none`.
pub mod Command
pub mod Keys
pub mod Claims
pub mod Granted
pub mod Http
mod Tests
use sakura_chat_server.Prelude.{
  ℕ, ◌%◌, Text, ascii, text_eq, ℤ, pos, int_eq, is_positive, Bool, true, false, not, ◌&&◌, ◌||◌,
  Option, none, some, List, [], ◌∷◌, length, all, is_empty, leb, ltb, ◌==◌, if◌then◌else◌,
}
use sakura_chat_server.Wire.{uuid}
use sakura_chat_server.Status.{is_digit}

-- An array, of whose elements those that are no unsigned numbers are `none`.
abbrev pub Array : Type 0
Array = Option (List (Option ℕ))

-- The object `bundle`.
pub record Bundle : Type 0 where
  pub members : List Text
  pub registration : Option ℕ
  pub id : Option ℕ
  pub identity : Array
  pub prekey : Array
  pub signed : Array
  pub signature : Array
  pub kyber : Array
  pub kyber_signature : Array

-- A request that is an object, with the names of its members.
pub record PrivateRequest : Type 0 where
  pub members : List Text
  pub op : Option Text
  pub request_id : Option Text
  pub identity : Array
  pub peer : Option ℤ
  pub bundle : Option Bundle
  pub peer_identity : Array
  pub id : Option Text
  pub kind : Option ℤ
  pub ciphertext : Option Text
  pub sequence : Option Text

pub data Op : Type 0 where
  register publish identity claim send poll ack : Op

unfoldable pub op_of : Text → Option Op
op_of t =
    if text_eq t (ascii "register")
    then some register
    else if text_eq t (ascii "poll")
    then some poll
    else if text_eq t (ascii "publish")
    then some publish
    else if text_eq t (ascii "identity")
    then some identity
    else if text_eq t (ascii "claim")
    then some claim
    else if text_eq t (ascii "send")
    then some send
    else if text_eq t (ascii "ack")
    then some ack
    else none

unfoldable pub is_member : Text → List Text → Bool
is_member t [] = false
is_member t (x ∷ xs) = text_eq x t || is_member t xs

abbrev pub common_fields : List Text
common_fields = ascii "op" ∷ ascii "request_id" ∷ ascii "identity" ∷ []

-- `fields`
abbrev pub fields_of : Op → List Text
fields_of register = common_fields
fields_of poll = common_fields
fields_of publish = ascii "bundle" ∷ common_fields
fields_of identity = ascii "peer" ∷ common_fields
fields_of claim = ascii "peer" ∷ common_fields
fields_of send =
    ascii "peer"
    ∷ ascii "peer_identity"
    ∷ ascii "id"
    ∷ ascii "kind"
    ∷ ascii "ciphertext"
    ∷ common_fields
fields_of ack = ascii "sequence" ∷ common_fields

abbrev pub bundle_fields : List Text
bundle_fields =
    ascii "registration"
    ∷ ascii "id"
    ∷ ascii "identity"
    ∷ ascii "prekey"
    ∷ ascii "signed"
    ∷ ascii "signature"
    ∷ ascii "kyber"
    ∷ ascii "kyber_signature"
    ∷ []

abbrev pub is_byte : Option ℕ → Bool
is_byte none = false
is_byte (some n) = leb n 255

-- `bytes`
unfoldable pub bytes : Array → ℕ → Bool
bytes none n = false
bytes (some l) n = (length l == n) && all is_byte l

abbrev pub satisfies : {A : Type 0} → (A → Bool) → Option A → Bool
satisfies f none = false
satisfies f (some a) = f a

-- `bundle`
unfoldable pub valid_bundle : Option Bundle → Bool
unfolding is_member bytes
valid_bundle none = false
valid_bundle (some b) =
    (length b.members == 8)
    && (all (λ t. is_member t bundle_fields) b.members
        && (satisfies (λ n. ltb 0 n && ltb n 16384) b.registration
            && (satisfies (ltb 0) b.id
                && (bytes b.identity 33
                    && (bytes b.prekey 33
                        && (bytes b.signed 33
                            && (bytes b.signature 64
                                && (bytes b.kyber 1569 && bytes b.kyber_signature 64))))))))

unfoldable pub same_numbers : List (Option ℕ) → List (Option ℕ) → Bool
same_numbers [] [] = true
same_numbers (some x ∷ xs) (some y ∷ ys) = (x == y) && same_numbers xs ys
same_numbers _ _ = false

abbrev pub same_array : Array → Array → Bool
same_array none b = false
same_array (some l) none = false
same_array (some l) (some k) = same_numbers l k

abbrev pub bundle_identity : Option Bundle → Array
bundle_identity none = none
bundle_identity (some b) = b.identity

-- A character of the ciphertext.
unfoldable pub is_base64 : ℕ → Bool
is_base64 c =
    ((leb b'A' c && leb c b'Z') || (leb b'a' c && leb c b'z'))
    || (is_digit c || ((c == b'+') || ((c == b'/') || (c == b'='))))

unfoldable pub valid_cipher : Text → Bool
unfolding is_base64
valid_cipher t =
    (not (is_empty t) && leb (length t) 87384) && ((length t % 4 == 0) && all is_base64 t)

unfoldable pub valid_send : PrivateRequest → Bool
unfolding bytes uuid valid_cipher
valid_send r =
    bytes r.peer_identity 33
    && (satisfies uuid r.id
        && (satisfies (λ k. int_eq k (pos 2) || int_eq k (pos 3)) r.kind
            && satisfies valid_cipher r.ciphertext))

unfoldable pub valid_sequence : Option Text → Bool
valid_sequence none = false
valid_sequence (some t) = not (is_empty t) && (leb (length t) 20 && all is_digit t)

-- What the operation asks of its own members.
unfoldable pub valid_op : PrivateRequest → Op → Bool
unfolding valid_bundle same_numbers valid_send valid_sequence
valid_op r register = true
valid_op r poll = true
valid_op r publish = valid_bundle r.bundle && same_array (bundle_identity r.bundle) r.identity
valid_op r identity = satisfies is_positive r.peer
valid_op r claim = satisfies is_positive r.peer
valid_op r send = satisfies is_positive r.peer && valid_send r
valid_op r ack = valid_sequence r.sequence

abbrev pub known_op : Option Text → Option Op
known_op none = none
known_op (some t) = op_of t

-- `valid`: the operation of a request that is well formed.
unfoldable pub valid : PrivateRequest → Option Op
unfolding op_of uuid is_member bytes valid_op
valid r = if not (satisfies uuid r.request_id) then none else elim (known_op r.op) [
  | none ↦ none
  | some op ↦
      if all (λ t. is_member t (fields_of op)) r.members && (bytes r.identity 33 && valid_op r op)
      then some op
      else none
]
