-- ===== src/Persistence/Deletion.antt =====
-- `MysqlDao::DeleteMessage` (Common/src/ChatPersistence.cpp).
pub mod Step
pub mod Numbers
use sakura_chat_server.Prelude.{
  ℕ, zero, suc, ◌+◌, Text, ℤ, pos, Bool, true, false, not, ◌&&◌, ◌||◌, Option, none, some, List, [],
  ◌∷◌, ◌++◌, first, keep, map, take, length, leb, ltb, int_eq, int_min, int_max, is_positive, ◌==◌,
  if◌then◌else◌,
}
use sakura_chat_server.Database.{Message, Expiry, DeleteEvent, DeleteHead, Db, is_some}
use sakura_chat_server.Database.Sql.{
  Env, Conn, Sql, ◌>>=◌, ◌>>◌, stop, stop_if, pure, query, update, begin, commit, with_lease,
  catching,
}
use sakura_chat_server.Persistence.{chat_data_invalid, chat_database_failed, int_or_zero}
use sakura_chat_server.Persistence.Store.{uint64_max}

-- The reply of `DeleteMessage`.
pub record Deleted : Type 0 where
  pub error : ℕ
  pub message_id : Option ℕ
  pub for_everyone : Bool

abbrev pub not_deleted : ℕ → Deleted
not_deleted code = record { error = code; message_id = none; for_everyone = false }

-- `WHERE message_id=?`
unfoldable pub find_by_id : ℕ → List Message → Option Message
find_by_id id = first (λ m. m.message_id == id)

-- The row of the message, or an early return.
unfoldable pub target_of : Option Message → Sql Deleted Message
target_of none = stop (not_deleted chat_data_invalid)
target_of (some m) = pure m

-- Who may delete: a participant for itself, and the sender for everyone.
abbrev pub may_not_delete : ℤ → Bool → Message → Bool
may_not_delete actor everyone m =
    (not (int_eq actor m.sender_uid) && not (int_eq actor (int_or_zero m.receiver_uid)))
    || (everyone && not (int_eq actor m.sender_uid))

-- The owners of the events, sorted.
unfoldable pub owners_of : ℤ → Bool → ℤ → List ℤ
owners_of actor everyone receiver =
    if everyone && (is_positive receiver && not (int_eq receiver actor))
    then int_min actor receiver ∷ int_max actor receiver ∷ []
    else actor ∷ []

unfoldable pub find_head : ℤ → List DeleteHead → Option DeleteHead
find_head owner = first (λ h. int_eq h.owner_uid owner)

-- `INSERT ... ON DUPLICATE KEY UPDATE owner_uid=owner_uid`
abbrev pub with_head : ℤ → List DeleteHead → Option DeleteHead → List DeleteHead
with_head owner hs none = record { owner_uid = owner; last_event = 0 } ∷ hs
with_head owner hs (some h) = hs

unfoldable pub ensure_head : ℤ → Db → Db
unfolding find_head
ensure_head owner db = record db { heads = with_head owner db.heads (find_head owner db.heads) }

unfoldable pub find_event : ℤ → ℕ → List DeleteEvent → Option DeleteEvent
find_event owner id = first (λ e. int_eq e.owner_uid owner && (e.message_id == id))

unfoldable pub insert_event : ℤ → ℕ → Message → Db → Db
insert_event owner seq m db = record db {
  events =
      record {
        owner_uid = owner;
        event_seq = seq;
        message_id = m.message_id;
        sender_uid = m.sender_uid;
        client_msg_id = m.client_msg_id;
      }
      ∷ db.events;
}

-- `UPDATE message_delete_head SET last_event=? WHERE owner_uid=?`
unfoldable pub advance_head : ℤ → ℕ → List DeleteHead → List DeleteHead
advance_head owner seq =
    map (λ h. if int_eq h.owner_uid owner then record h { last_event = seq } else h)

unfoldable pub last_of : Option DeleteHead → Sql Deleted ℕ
last_of none = stop (not_deleted chat_database_failed)
last_of (some h) = pure h.last_event

-- What is done for an owner whose event is not there yet.
unfoldable pub add_event : Env → ℤ → ℕ → Message → Bool → Sql Deleted (Unit {0})
unfolding insert_event advance_head
add_event env owner last m true = pure tt
add_event env owner last m false = do
  stop_if (last == uint64_max) (not_deleted chat_data_invalid)
  update env (insert_event owner (last + 1) m)
  update env (λ db. record db { heads = advance_head owner (last + 1) db.heads })

-- The body of the loop over the owners.
unfoldable pub assign_event : Env → Message → ℤ → Sql Deleted (Unit {0})
unfolding ensure_head find_head last_of find_event add_event
assign_event env m owner = do
  update env (ensure_head owner)
  head ← query env (λ db. find_head owner db.heads)
  last ← last_of head
  existing ← query env (λ db. find_event owner m.message_id db.events)
  add_event env owner last m (is_some existing)

unfoldable pub assign_events : Env → Message → List ℤ → Sql Deleted (Unit {0})
unfolding assign_event
assign_events env m [] = pure tt
assign_events env m (owner ∷ rest) = do assign_event env m owner; assign_events env m rest

-- `SET content='',extra=NULL,status=2`, and the end of the expiry
unfoldable pub erase_message : ℕ → List Message → List Message
erase_message id =
    map (λ m. if m.message_id == id then record m { content = []; status = 2 } else m)

unfoldable pub clear_expiry : ℕ → List Expiry → List Expiry
clear_expiry id = keep (λ e. not (e.message_id == id))

unfoldable pub erase : Env → ℕ → Bool → Sql Deleted (Unit {0})
unfolding erase_message clear_expiry
erase env id false = pure tt
erase env id true = do
  update env (λ db. record db { messages = erase_message id db.messages })
  update env (λ db. record db { expiry = clear_expiry id db.expiry })

-- The `try` block.
unfoldable pub delete_in_transaction : Env → ℤ → ℕ → Bool → Sql Deleted Deleted
unfolding find_by_id target_of owners_of assign_events erase
delete_in_transaction env actor id everyone = do
  begin env
  row ← query env (λ db. find_by_id id db.messages)
  m ← target_of row
  stop_if (may_not_delete actor everyone m) (not_deleted chat_data_invalid)
  assign_events env m (owners_of actor everyone (int_or_zero m.receiver_uid))
  erase env id everyone
  commit env
  pure (record { error = 0; message_id = some id; for_everyone = everyone })

-- `DeleteMessage`
unfoldable pub delete_message : Env → ℤ → ℕ → Bool → Conn → Deleted × Conn
unfolding delete_in_transaction
delete_message env actor id everyone c =
    if not (is_positive actor) || (id == 0)
    then (not_deleted chat_data_invalid, c)
    else catching (with_lease env (delete_in_transaction env actor id everyone))
        (not_deleted chat_database_failed) c
