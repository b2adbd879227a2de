-- ===== src/PrivateChat/Command.antt =====
-- `MysqlDao::PrivateChatCommand` (Common/src/PrivateChatDao.cpp): devices, their one-time prekeys, and
-- the sealed messages between them, in one transaction for each request.
use sakura_chat_server.Prelude.{
  ℕ, ◌+◌, Text, ascii, text_eq, ℤ, pos, int_eq, is_positive, Bool, true, false, not, ◌&&◌, Option,
  none, some, List, [], ◌∷◌, ◌++◌, first, keep, map, length, leb, ◌==◌, if◌then◌else◌,
}
use sakura_chat_server.Database.{Device, Prekey, Envelope, Db, is_some, blocked_between, is_friend}
use sakura_chat_server.Database.Sql.{
  Env, Conn, other, raises, Sql, ◌>>=◌, ◌>>◌, pure, stop, stop_if, query, update, begin, commit,
  with_lease, catching,
}
use sakura_chat_server.Persistence.Paging.{sort_by}
use sakura_chat_server.Logic.Login.{leading_value}
use sakura_chat_server.PrivateChat.{
  Array, Bundle, PrivateRequest, Op, register, publish, identity, claim, send, poll, ack, valid,
}

-- The object `envelope`.
pub record Sealed : Type 0 where
  pub sequence : ℕ
  pub sender : ℤ
  pub id : Text
  pub identity : Text
  pub kind : ℤ
  pub ciphertext : Option Text

-- The reply; a text that is parsed before it is sent stands as it is stored.
pub record PrivateReply : Type 0 where
  pub error : ℕ
  pub identity : Option Text
  pub bundle : Option Text
  pub envelope : Option Sealed
  pub available_prekeys : Option ℕ

-- `error`
abbrev pub private_error : ℕ → PrivateReply
private_error code = record {
  error = code;
  identity = none;
  bundle = none;
  envelope = none;
  available_prekeys = none;
}

-- `ChatWire::Compact` of an array and of a bundle; whether `parse` reads a text; the digest, and
-- `std::to_string`.
pub record PrivateParts : Type 0 where
  pub compact : Array → Text
  pub compact_bundle : Bundle → Text
  pub readable : Text → Bool
  pub digest : Text → Text
  pub to_string : ℤ → Text

abbrev pub PrivateSql : Type 0 → Type 0
PrivateSql = Sql PrivateReply

-- `parse`, which throws where a text is not readable
unfoldable pub parsed : PrivateParts → Text → PrivateSql Text
parsed g t c = if g.readable t then pure t c else (raises other, c)

abbrev pub text_or : Option Text → Text
text_or none = []
text_or (some t) = t

unfoldable pub find_device : ℤ → Db → Option Device
find_device uid db = first (λ d. int_eq d.uid uid) db.devices

abbrev pub is_active : ℤ → Db → Bool
is_active uid db = is_some (first (λ u. int_eq u.uid uid && (u.status == 0)) db.users)

-- A device that is not there is made by `register` alone; one that is there must be the same.
unfoldable pub check_device : Env → ℤ → Text → Op → Option Device → PrivateSql (Unit {0})
check_device env actor key op (some d) =
    stop_if (not (text_eq d.identity_key key)) (private_error 1202)
check_device env actor key register none =
    update env
      (λ db. record db { devices = record { uid = actor; identity_key = key } ∷ db.devices })
check_device env actor key op none = stop (private_error 1201)

unfoldable pub identity_of : Option Device → PrivateSql Text
identity_of none = stop (private_error 1201)
identity_of (some d) = pure d.identity_key

-- A friend who is active, without a block between the two.
unfoldable pub may_reach : ℤ → ℤ → Db → Bool
may_reach actor peer db =
    is_friend actor peer db && (is_active peer db && not (blocked_between actor peer db))

-- `peerIdentity`, which is empty without a peer
unfoldable pub peer_identity_of : Env → ℤ → Option ℤ → PrivateSql Text
unfolding may_reach find_device identity_of
peer_identity_of env actor none = pure []
peer_identity_of env actor (some peer) = do
  stop_if (int_eq peer actor) (private_error 1001)
  allowed ← query env (may_reach actor peer)
  stop_if (not allowed) (private_error 1101)
  target ← query env (find_device peer)
  identity_of target

abbrev pub is_key : ℤ → ℕ → Prekey → Bool
is_key owner id k = int_eq k.owner_uid owner && (k.key_id == id)

abbrev pub insert_prekey : ℤ → ℕ → Text → Db → Db
insert_prekey owner id body db = record db {
  prekeys = record { owner_uid = owner; key_id = id; bundle = body; claim = none } ∷ db.prekeys;
}

-- A prekey that is there must have the same bundle; a new one is stored while there are not 100.
unfoldable pub store_prekey : Env → ℤ → ℕ → Text → Option Prekey → PrivateSql (Unit {0})
store_prekey env actor id body (some k) = stop_if (not (text_eq k.bundle body)) (private_error 1203)
store_prekey env actor id body none = do
  count ← query env (λ db. length (keep (λ k. int_eq k.owner_uid actor) db.prekeys))
  stop_if (leb 100 count) (private_error 1208)
  update env (insert_prekey actor id body)

abbrev pub id_or_zero : Option ℕ → ℕ
id_or_zero none = 0
id_or_zero (some n) = n

-- There is a bundle in a valid request.
unfoldable pub publish_bundle : Env → PrivateParts → ℤ → Option Bundle → PrivateSql PrivateReply
unfolding store_prekey
publish_bundle env g actor none = stop (private_error 1001)
publish_bundle env g actor (some b) = do
  existing ← query env (λ db. first (is_key actor (id_or_zero b.id)) db.prekeys)
  store_prekey env actor (id_or_zero b.id) (g.compact_bundle b) existing
  pure (private_error 0)

abbrev pub has_claim : Option (ℤ × Text) → ℤ → Text → Bool
has_claim none actor id = false
has_claim (some (u, t)) actor id = int_eq u actor && text_eq t id

abbrev pub is_free : ℤ → Prekey → Bool
is_free owner k = int_eq k.owner_uid owner && not (is_some k.claim)

abbrev pub key_number : Prekey → ℕ
key_number k = k.key_id

-- `WHERE owner_uid=? AND claimant_uid IS NULL ORDER BY key_id LIMIT 1`
unfoldable pub first_free : ℤ → List Prekey → Option Prekey
unfolding sort_by
first_free owner ks = first (is_free owner) (sort_by key_number ks)

-- `UPDATE private_prekey SET claimant_uid=?,claim_id=? WHERE owner_uid=? AND key_id=?`
unfoldable pub set_claim : ℤ → ℕ → ℤ → Text → List Prekey → List Prekey
set_claim owner id actor request =
    map (λ k. if is_key owner id k then record k { claim = some (actor, request) } else k)

unfoldable pub claim_free :
    Env → PrivateParts → ℤ → ℤ → Text → Option Prekey → PrivateSql PrivateReply
unfolding parsed set_claim
claim_free env g actor peer request none = stop (private_error 1205)
claim_free env g actor peer request (some k) = do
  bundle ← parsed g k.bundle
  update env (λ db. record db { prekeys = set_claim peer k.key_id actor request db.prekeys })
  pure (record (private_error 0) { bundle = some bundle })

unfoldable pub claim_or_again :
    Env → PrivateParts → ℤ → ℤ → Text → Option Prekey → PrivateSql PrivateReply
unfolding parsed first_free claim_free
claim_or_again env g actor peer request (some k) = do
  bundle ← parsed g k.bundle
  pure (record (private_error 0) { bundle = some bundle })
claim_or_again env g actor peer request none = do
  available ← query env (λ db. first_free peer db.prekeys)
  claim_free env g actor peer request available

unfoldable pub claim_prekey : Env → PrivateParts → ℤ → ℤ → Text → PrivateSql PrivateReply
unfolding claim_or_again
claim_prekey env g actor peer request = do
  previous ←
      query env
        (λ db. first (λ k. int_eq k.owner_uid peer && has_claim k.claim actor request) db.prekeys)
  claim_or_again env g actor peer request previous

abbrev pub insert_envelope : ℤ → ℤ → Text → Text → Text → ℤ → Text → Text → Db → Db
insert_envelope actor peer id own theirs kind cipher digest db = record db {
  envelopes =
      record {
        sequence = db.next_envelope;
        sender_uid = actor;
        recipient_uid = peer;
        message_id = id;
        sender_identity = own;
        recipient_identity = theirs;
        kind = kind;
        ciphertext = some cipher;
        digest = digest;
        acknowledged = false;
      }
      ∷ db.envelopes;
  next_envelope = db.next_envelope + 1;
}

-- A message that is there must be the same; a new one is stored while not 1000 wait.
unfoldable pub store_envelope :
    Env → ℤ → ℤ → (Db → Db) → Text → Option Envelope → PrivateSql (Unit {0})
store_envelope env actor peer insert digest (some e) =
    stop_if (not (text_eq e.digest digest)) (private_error 1203)
store_envelope env actor peer insert digest none = do
  count ←
      query env
        (λ db. length (keep (λ e. int_eq e.recipient_uid peer && not e.acknowledged) db.envelopes))
  stop_if (leb 1000 count) (private_error 1209)
  update env insert

abbrev pub kind_or_zero : Option ℤ → ℤ
kind_or_zero none = pos 0
kind_or_zero (some k) = k

abbrev pub is_sent : ℤ → Text → Envelope → Bool
is_sent actor id e = int_eq e.sender_uid actor && text_eq e.message_id id

unfoldable pub send_envelope :
    Env → PrivateParts → ℤ → ℤ → Text → Text → PrivateRequest → PrivateSql PrivateReply
unfolding store_envelope
send_envelope env g actor peer own theirs r =
    let id = text_or r.id in
    let cipher = text_or r.ciphertext in
    let kind = kind_or_zero r.kind in
    let digest = g.digest (
      g.to_string peer
      ++ ascii ":"
      ++ own
      ++ ascii ":"
      ++ theirs
      ++ ascii ":"
      ++ g.to_string kind
      ++ ascii ":"
      ++ cipher) in
    do
      stop_if (not (text_eq (g.compact r.peer_identity) theirs)) (private_error 1202)
      existing ← query env (λ db. first (is_sent actor id) db.envelopes)
      store_envelope env actor peer (insert_envelope actor peer id own theirs kind cipher digest)
          digest existing
      pure (private_error 0)

abbrev pub sequence_of : Envelope → ℕ
sequence_of e = e.sequence

abbrev pub waits_for : ℤ → Text → Db → Envelope → Bool
waits_for actor key db e =
    (int_eq e.recipient_uid actor && not e.acknowledged)
    && (text_eq e.recipient_identity key && not (blocked_between e.sender_uid e.recipient_uid db))

-- `ORDER BY e.sequence LIMIT 1`
unfoldable pub next_envelope : ℤ → Text → Db → Option Envelope
unfolding sort_by
next_envelope actor key db = first (waits_for actor key db) (sort_by sequence_of db.envelopes)

unfoldable pub show_envelope : PrivateParts → Option Envelope → PrivateSql PrivateReply
unfolding parsed
show_envelope g none = pure (private_error 0)
show_envelope g (some e) = do
  sender ← parsed g e.sender_identity
  pure (record (private_error 0) {
    envelope = some (record {
      sequence = e.sequence;
      sender = e.sender_uid;
      id = e.message_id;
      identity = sender;
      kind = e.kind;
      ciphertext = e.ciphertext;
    });
  })

-- `UPDATE private_envelope SET acknowledged=1,ciphertext=NULL`; the text of the sequence number is taken
-- to be compared as the number that it is.
unfoldable pub acknowledge : ℤ → Text → ℕ → Db → Db
acknowledge actor key sequence db = record db {
  envelopes =
      map
        (λ e.
          if (e.sequence == sequence)
            && (int_eq e.recipient_uid actor && text_eq e.recipient_identity key)
          then record e { acknowledged = true; ciphertext = none }
          else e)
        db.envelopes;
}

abbrev pub peer_or_zero : Option ℤ → ℤ
peer_or_zero none = pos 0
peer_or_zero (some p) = p

-- The operation itself.
unfoldable pub run_op :
    Env → PrivateParts → ℤ → Text → Text → PrivateRequest → Op → PrivateSql PrivateReply
unfolding publish_bundle parsed claim_prekey send_envelope next_envelope show_envelope acknowledge
    leading_value
run_op env g actor own theirs r register = pure (private_error 0)
run_op env g actor own theirs r publish = publish_bundle env g actor r.bundle
run_op env g actor own theirs r identity = do
  t ← parsed g theirs
  pure (record (private_error 0) { identity = some t })
run_op env g actor own theirs r claim =
    claim_prekey env g actor (peer_or_zero r.peer) (text_or r.request_id)
run_op env g actor own theirs r send = send_envelope env g actor (peer_or_zero r.peer) own theirs r
run_op env g actor own theirs r poll = do e ← query env (next_envelope actor own); show_envelope g e
run_op env g actor own theirs r ack = do
  update env (acknowledge actor own (leading_value 0 (text_or r.sequence)))
  pure (private_error 0)

abbrev pub counts_keys : Op → Bool
counts_keys register = true
counts_keys publish = true
counts_keys op = false

-- `available_prekeys`
unfoldable pub with_count : Env → ℤ → PrivateReply → Bool → PrivateSql PrivateReply
with_count env actor r false = pure r
with_count env actor r true = do
  n ← query env (λ db. length (keep (is_free actor) db.prekeys))
  pure (record r { available_prekeys = some n })

-- The `try` block.
unfoldable pub private_transaction :
    Env → PrivateParts → ℤ → PrivateRequest → Op → PrivateSql PrivateReply
unfolding find_device check_device peer_identity_of run_op with_count
private_transaction env g actor r op = do
  begin env
  active ← query env (is_active actor)
  stop_if (not active) (private_error 1010)
  device ← query env (find_device actor)
  check_device env actor (g.compact r.identity) op device
  theirs ← peer_identity_of env actor r.peer
  result ← run_op env g actor (g.compact r.identity) theirs r op
  counted ← with_count env actor result (counts_keys op)
  commit env
  pure counted

unfoldable pub run_private :
    Env → PrivateParts → ℤ → PrivateRequest → Option Op → Conn → PrivateReply × Conn
unfolding private_transaction
run_private env g actor r none c = (private_error 1001, c)
run_private env g actor r (some op) c =
    catching (with_lease env (private_transaction env g actor r op)) (private_error 1104) c

-- `PrivateChatCommand`
unfoldable pub private_chat_command :
    Env → PrivateParts → ℤ → PrivateRequest → Conn → PrivateReply × Conn
unfolding valid run_private
private_chat_command env g actor r c =
    if not (is_positive actor)
    then (private_error 1001, c)
    else run_private env g actor r (valid r) c
