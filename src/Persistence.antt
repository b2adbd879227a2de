-- ===== src/Persistence.antt =====
-- Common/src/ChatPersistence.cpp: the stored messages and what hangs on them. Replies are records
-- with the members that the source writes into a `Json::Value`; a missing member is `none`.
pub mod Store
pub mod Privacy
pub mod Receipts
pub mod Deletion
pub mod Retention
pub mod Paging
pub mod History
pub mod Tests
use sakura_chat_server.Prelude.{
  ℕ, ◌*◌, Text, ℤ, pos, Bool, true, false, ◌&&◌, ◌||◌, Option, none, some, List, [], ◌∷◌, first,
  leb, int_eq, ◌==◌, if◌then◌else◌,
}
use sakura_chat_server.Database.{Message, Expiry, Receipt, Db}
use sakura_chat_server.Database.Sql.{Env}

-- `ErrorCodes` (Common/include/const.h)
abbrev pub success : ℕ
success = 0

abbrev pub chat_not_friend : ℕ
chat_not_friend = 1101

abbrev pub chat_data_invalid : ℕ
chat_data_invalid = 1103

abbrev pub chat_database_failed : ℕ
chat_database_failed = 1104

pub data State : Type 0 where
  accepted delivered read not_found : State

-- The object that `row` makes of a row of `columns`.
pub record Row : Type 0 where
  pub message_id : ℕ
  pub thread_id : ℕ
  pub seq : ℕ
  pub msgid : Text
  pub fromuid : ℤ
  pub touid : ℤ
  pub content : Text
  pub message_status : ℕ
  pub created_at_ms : ℕ
  pub expires_at_ms : ℕ
  pub state : State

-- `getInt` of a column that is NULL
abbrev pub int_or_zero : Option ℤ → ℤ
int_or_zero none = pos 0
int_or_zero (some z) = z

-- The joins of `columns`: the expiry of a message, and the receipt of its receiver.
unfoldable pub expiry_of : ℕ → Db → Option Expiry
expiry_of id db = first (λ e. e.message_id == id) db.expiry

abbrev pub is_receiver : Option ℤ → ℤ → Bool
is_receiver none u = false
is_receiver (some r) u = int_eq u r

unfoldable pub receipt_of : Message → Db → Option Receipt
receipt_of m db =
    first (λ r. (r.message_id == m.message_id) && is_receiver m.receiver_uid r.user_uid) db.receipts

-- `e.expires_at<=CURRENT_TIMESTAMP(3)`
unfoldable pub is_expired : Message → Db → Bool
unfolding expiry_of
is_expired m db = elim (expiry_of m.message_id db) [
  | none ↦ false
  | some e ↦ leb e.expires_at db.now
]

-- `CASE WHEN r.status=1 THEN 'read' WHEN r.status=0 THEN 'delivered' ELSE 'accepted' END`
abbrev pub state_of : Option Receipt → State
state_of none = accepted
state_of (some r) = if r.status == 1 then read else if r.status == 0 then delivered else accepted

abbrev pub expires_ms : Option Expiry → ℕ
expires_ms none = 0
expires_ms (some e) = e.expires_at

-- `columns` and `row`: the content is blank once the message is not normal, or has expired, and
-- an expired message that is still normal is shown as deleted.
unfoldable pub row : Message → Db → Row
unfolding is_expired receipt_of expiry_of
row m db = record {
  message_id = m.message_id;
  thread_id = m.thread_id;
  seq = m.seq;
  msgid = m.client_msg_id;
  fromuid = m.sender_uid;
  touid = int_or_zero m.receiver_uid;
  content = if m.status == 0 then (if is_expired m db then [] else m.content) else [];
  message_status = if m.status == 0 then (if is_expired m db then 2 else 0) else m.status;
  created_at_ms = m.created_ms;
  expires_at_ms = expires_ms (expiry_of m.message_id db);
  state = state_of (receipt_of m db);
}

-- `WHERE m.sender_uid=? AND m.client_msg_id=?`
unfoldable pub find_message : Env → ℤ → Text → List Message → Option Message
find_message env sender id = first (λ m. int_eq m.sender_uid sender && env.same m.client_msg_id id)

-- `lookup`; `none` is a null value.
unfoldable pub lookup : Env → ℤ → Text → Db → Option Row
unfolding find_message row
lookup env sender id db = elim (find_message env sender id db.messages) [
  | none ↦ none
  | some m ↦ some (row m db)
]

-- The reply of `StoredText` and `StoreTextMessage`.
pub record Saved : Type 0 where
  pub error : ℕ
  pub message : Option Row

-- `result(error)`
abbrev pub failed : ℕ → Saved
failed code = record { error = code; message = none }
