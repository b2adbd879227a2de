-- ===== src/PrivateChat/Tests.antt =====
-- The private chat at concrete inputs.
use sakura_chat_server.Prelude.{
  ◌≡◌, refl, text_eq, ascii, pos, true, none, some, [], ◌∷◌, replicate, inl, inr,
}
use sakura_chat_server.Database.{Prekey, Db}
use sakura_chat_server.Database.Triple.{idle}
use sakura_chat_server.Database.Leases.{Over}
use sakura_chat_server.Wire.{uuid_from, uuid_char, is_hex}
use sakura_chat_server.Redis.Limits.{ready}
use sakura_chat_server.Redis.Tests.{Store}
use sakura_chat_server.Persistence.Tests.{two_friends, deadlock, id_one, id_two}
use sakura_chat_server.PrivateChat.{Array, PrivateRequest, claim, valid}
use sakura_chat_server.PrivateChat.Command.{PrivateParts, private_chat_command}
use sakura_chat_server.PrivateChat.Keys.{Keys}
use sakura_chat_server.PrivateChat.Claims.{private_chat_command-Over}
use sakura_chat_server.PrivateChat.Granted.{Granted}
use sakura_chat_server.PrivateChat.Http.{HttpRequest, HttpState}
use sakura_chat_server.PrivateChat.Http.Authorised.{Authorised}

-- User 2 has two prekeys, of which user 1 has claimed one.
abbrev taken : Prekey
taken = record { owner_uid = pos 2; key_id = 7; bundle = ascii "{}"; claim = some (pos 1, id_one) }

abbrev with_keys : Db
with_keys = record two_friends {
  devices =
      record { uid = pos 1; identity_key = ascii "k" }
      ∷ record { uid = pos 2; identity_key = ascii "k" }
      ∷ [];
  prekeys =
      record { owner_uid = pos 2; key_id = 8; bundle = ascii "[]"; claim = none } ∷ taken ∷ [];
}

abbrev parts : PrivateParts
parts = record {
  compact = λ a. ascii "k";
  compact_bundle = λ b. ascii "{}";
  readable = λ t. true;
  digest = λ t. t;
  to_string = λ u. ascii "1";
}

abbrev key_bytes : Array
key_bytes = some (replicate 33 (some 5))

-- User 1 claims a prekey of user 2.
abbrev claim_request : PrivateRequest
claim_request = record {
  members = ascii "op" ∷ ascii "request_id" ∷ ascii "identity" ∷ ascii "peer" ∷ [];
  op = some (ascii "claim");
  request_id = some id_two;
  identity = key_bytes;
  peer = some (pos 2);
  bundle = none;
  peer_identity = none;
  id = none;
  kind = none;
  ciphertext = none;
  sequence = none;
}

claim_is_valid : valid claim_request ≡ some claim
unfolding valid ascii uuid_from uuid_char is_hex text_eq
claim_is_valid = refl

private_chat_command-Over_example :
    Over
      (Keys taken)
      (private_chat_command deadlock parts (pos 1) claim_request (idle with_keys 0)).1
private_chat_command-Over_example =
    private_chat_command-Over deadlock taken refl (λ n e p. p) parts (pos 1) claim_request
      (idle with_keys 0)
      (record {
        none_open = refl;
        holds = record { distinct = ((refl, tt), (tt, tt)); kept = inr (inl refl) };
      })

abbrev claim_http : HttpRequest
claim_http = record { uid = pos 1; token = replicate 64 b'a'; request = claim_request }

abbrev state : HttpState Store
state = record {
  redis = ready 1 (2 ∷ []) (record { texts = λ k. none; counts = λ k. 0 }) 0;
  conn = idle with_keys 0;
}
