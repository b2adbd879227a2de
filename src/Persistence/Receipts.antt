-- ===== src/Persistence/Receipts.antt =====
-- `MysqlDao::RecordReceipt` and `MysqlDao::MessageStates` (Common/src/ChatPersistence.cpp).
pub mod Monotone
use sakura_chat_server.Prelude.{
  ℕ, ◌+◌, Text, ℤ, Bool, true, false, not, ◌&&◌, Option, none, some, List, [], ◌∷◌, first, map,
  length, ltb, max, int_eq, ◌==◌, if◌then◌else◌,
}
use sakura_chat_server.Database.{Message, Receipt, Db, is_some}
use sakura_chat_server.Database.Sql.{
  Env, Conn, Sql, ◌>>=◌, ◌>>◌, stop_if, pure, query, update, begin, commit, with_lease, catching,
}
use sakura_chat_server.Persistence.{
  chat_data_invalid, chat_database_failed, State, delivered, read, not_found, Row, is_receiver,
  lookup,
}
use sakura_chat_server.Persistence.Privacy.{read_receipts, privacy_allows}

-- The reply of `RecordReceipt`.
pub record Recorded : Type 0 where
  pub error : ℕ
  pub state : Option State
  pub message_id : Option ℕ
  pub read_suppressed : Bool

abbrev pub not_recorded : ℕ → Recorded
not_recorded code = record {
  error = code;
  state = none;
  message_id = none;
  read_suppressed = false;
}

-- `WHERE message_id=? AND receiver_uid=?`
unfoldable pub is_sent_to : ℕ → ℤ → Db → Bool
is_sent_to id actor db =
    is_some (first (λ m. (m.message_id == id) && is_receiver m.receiver_uid actor) db.messages)

abbrev pub is_receipt : ℕ → ℤ → Receipt → Bool
is_receipt id user r = (r.message_id == id) && int_eq r.user_uid user

abbrev pub find_receipt : ℕ → ℤ → Db → Option Receipt
find_receipt id user db = first (is_receipt id user) db.receipts

-- `COALESCE(read_at,CURRENT_TIMESTAMP(3))`
abbrev pub read_at_or : ℕ → Option ℕ → ℕ
read_at_or now none = now
read_at_or now (some t) = t

abbrev pub status_number : Bool → ℕ
status_number is_read = if is_read then 1 else 0

-- `status=GREATEST(status,?)`, and the time of the first reading
unfoldable pub raise_receipt : Bool → ℕ → Receipt → Receipt
raise_receipt is_read now r = record r {
  status = max r.status (status_number is_read);
  read_at = if is_read then some (read_at_or now r.read_at) else r.read_at;
}

-- `INSERT ... ON DUPLICATE KEY UPDATE`
unfoldable pub upsert_receipt : ℕ → ℤ → Bool → ℕ → List Receipt → List Receipt
unfolding raise_receipt
upsert_receipt id user is_read now [] =
    record {
      message_id = id;
      user_uid = user;
      status = status_number is_read;
      read_at = if is_read then some now else none;
    }
    ∷ []
upsert_receipt id user is_read now (r ∷ rs) =
    let rest = upsert_receipt id user is_read now rs in
    if is_receipt id user r then raise_receipt is_read now r ∷ rs else r ∷ rest

-- `rs->getInt(1) == 1 ? "read" : "delivered"`; a row that is not there counts as 0.
abbrev pub receipt_state : Option Receipt → State
receipt_state none = delivered
receipt_state (some r) = if r.status == 1 then read else delivered

-- What follows the question whether reading is told.
unfoldable pub write_receipt : Env → ℤ → ℕ → Bool → Bool → Sql Recorded Recorded
unfolding is_sent_to upsert_receipt
write_receipt env actor id is_read suppressed = do
  begin env
  sent_to ← query env (is_sent_to id actor)
  stop_if (not sent_to) (not_recorded chat_data_invalid)
  update env (λ db. record db { receipts = upsert_receipt id actor is_read db.now db.receipts })
  state ← query env (λ db. receipt_state (find_receipt id actor db))
  commit env
  pure
      (record { error = 0; state = some state; message_id = some id; read_suppressed = suppressed })

-- `read && !PrivacyAllows(actor, actor, "read_receipts")`, with its own connection.
unfoldable pub is_suppressed : Env → ℤ → Bool → Conn → Bool × Conn
unfolding privacy_allows
is_suppressed env actor false c = (false, c)
is_suppressed env actor true c =
    let (told, c') = privacy_allows env actor actor read_receipts c in (not told, c')

-- `RecordReceipt`
unfoldable pub record_receipt : Env → ℤ → ℕ → Bool → Conn → Recorded × Conn
unfolding is_suppressed write_receipt
record_receipt env actor id is_read c =
    let (suppressed, c') = is_suppressed env actor is_read c in
    catching (with_lease env (write_receipt env actor id (is_read && not suppressed) suppressed))
      (not_recorded chat_database_failed) c'

-- A row of `MessageStates`: that of the message without its content, or the id and `not_found`.
pub data StateRow : Type 0 where
  found : Row → StateRow
  missing : Text → StateRow

pub record States : Type 0 where
  pub error : ℕ
  pub items : List StateRow

abbrev pub state_row : Text → Option Row → StateRow
state_row id none = missing id
state_row id (some m) = found (record m { content = [] })

unfoldable pub state_rows : Env → ℤ → List Text → Sql States (List StateRow)
unfolding lookup
state_rows env actor [] = pure []
state_rows env actor (id ∷ ids) = do
  m ← query env (lookup env actor id)
  rest ← state_rows env actor ids
  pure (state_row id m ∷ rest)

-- `MessageStates`
unfoldable pub message_states : Env → ℤ → List Text → Conn → States × Conn
unfolding state_rows
message_states env actor ids c =
    if ltb 4 (length ids)
    then (record { error = chat_data_invalid; items = [] }, c)
    else catching
        (with_lease env
          (do items ← state_rows env actor ids; pure (record { error = 0; items = items })))
        (record { error = chat_database_failed; items = [] }) c
