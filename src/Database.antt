-- ===== src/Database.antt =====
-- The tables that the data access objects of Common/src read and write, as lists of rows, and the
-- connection through which they do it. The SQL texts of the source are functions on these tables.
pub mod Sql
pub mod Triple
pub mod Leases
use sakura_chat_server.Prelude.{
  ℕ, Text, ℤ, pos, Bool, true, false, ◌&&◌, ◌||◌, Option, none, some, List, [], ◌∷◌, first, int_eq,
  if◌then◌else◌,
}

-- `chat_message`; the receiver of a group message is NULL.
pub record Message : Type 0 where
  pub message_id : ℕ
  pub thread_id : ℕ
  pub seq : ℕ
  pub client_msg_id : Text
  pub sender_uid : ℤ
  pub receiver_uid : Option ℤ
  pub content : Text
  pub status : ℕ
  pub created_ms : ℕ

-- `chat_thread`
pub record Thread : Type 0 where
  pub id : ℕ
  pub last_seq : ℕ
  pub status : ℕ
  pub last_message_id : Option ℕ

-- `private_chat`
pub record PrivateChat : Type 0 where
  pub thread_id : ℕ
  pub user1_uid : ℤ
  pub user2_uid : ℤ

-- `message_expiry`, in milliseconds
pub record Expiry : Type 0 where
  pub message_id : ℕ
  pub expires_at : ℕ

-- `message_receipt`
pub record Receipt : Type 0 where
  pub message_id : ℕ
  pub user_uid : ℤ
  pub status : ℕ
  pub read_at : Option ℕ

-- `message_delete_event`
pub record DeleteEvent : Type 0 where
  pub owner_uid : ℤ
  pub event_seq : ℕ
  pub message_id : ℕ
  pub sender_uid : ℤ
  pub client_msg_id : Text

-- `message_delete_head`
pub record DeleteHead : Type 0 where
  pub owner_uid : ℤ
  pub last_event : ℕ

-- `user_privacy`
pub record Privacy : Type 0 where
  pub uid : ℤ
  pub search_policy : ℕ
  pub request_policy : ℕ
  pub profile_policy : ℕ
  pub read_receipts : ℕ

-- `user`, as far as the statements look at it
pub record User : Type 0 where
  pub uid : ℤ
  pub name : Text
  pub email : Text
  pub pwd : Text
  pub nick : Text
  pub desc : Text
  pub gender : ℕ
  pub icon : Text
  pub status : ℕ

-- `friend`
pub record Friend : Type 0 where
  pub self_uid : ℤ
  pub friend_uid : ℤ
  pub remark : Text

-- `friend_apply`
pub record FriendApply : Type 0 where
  pub id : ℕ
  pub from_uid : ℤ
  pub to_uid : ℤ
  pub status : ℕ
  pub descs : Text
  pub back_name : Text

-- `user_block`
pub record Block : Type 0 where
  pub owner_uid : ℤ
  pub blocked_uid : ℤ

-- `user_message_retention`
pub record Retention : Type 0 where
  pub uid : ℤ
  pub seconds : ℕ

-- `private_device`
pub record Device : Type 0 where
  pub uid : ℤ
  pub identity_key : Text

-- `private_prekey`, with the claimant and its claim
pub record Prekey : Type 0 where
  pub owner_uid : ℤ
  pub key_id : ℕ
  pub bundle : Text
  pub claim : Option (ℤ × Text)

-- `private_envelope`
pub record Envelope : Type 0 where
  pub sequence : ℕ
  pub sender_uid : ℤ
  pub recipient_uid : ℤ
  pub message_id : Text
  pub sender_identity : Text
  pub recipient_identity : Text
  pub kind : ℤ
  pub ciphertext : Option Text
  pub digest : Text
  pub acknowledged : Bool

-- The tables, the next values of the AUTO_INCREMENT keys, the last uid that was given (`user_id`), and
-- the clock in milliseconds.
pub record Db : Type 0 where
  pub users : List User
  pub friends : List Friend
  pub applies : List FriendApply
  pub blocks : List Block
  pub threads : List Thread
  pub private_chats : List PrivateChat
  pub messages : List Message
  pub expiry : List Expiry
  pub receipts : List Receipt
  pub retention : List Retention
  pub privacy : List Privacy
  pub heads : List DeleteHead
  pub events : List DeleteEvent
  pub devices : List Device
  pub prekeys : List Prekey
  pub envelopes : List Envelope
  pub next_envelope : ℕ
  pub next_thread : ℕ
  pub next_message : ℕ
  pub next_apply : ℕ
  pub last_uid : ℕ
  pub now : ℕ

abbrev pub is_some {ℓ} : {A : Type ℓ} → Option A → Bool
is_some none = false
is_some (some a) = true

-- `SELECT 1 FROM user_block WHERE (owner_uid=a AND blocked_uid=b) OR (owner_uid=b AND blocked_uid=a)`
unfoldable pub blocked_between : ℤ → ℤ → Db → Bool
blocked_between a b db = is_some (
    first
      (λ r.
        (int_eq r.owner_uid a && int_eq r.blocked_uid b)
        || (int_eq r.owner_uid b && int_eq r.blocked_uid a))
      db.blocks)

-- `SELECT 1 FROM friend WHERE self_uid=a AND friend_uid=b`
unfoldable pub is_friend : ℤ → ℤ → Db → Bool
is_friend a b db = is_some (first (λ r. int_eq r.self_uid a && int_eq r.friend_uid b) db.friends)
