-- ===== src/Persistence/Store.antt =====
-- `MysqlDao::StoredText` and `MysqlDao::StoreTextMessage` (Common/src/ChatPersistence.cpp).
pub mod Step
pub mod Committed
pub mod Invariant
pub mod Outcome
pub mod Once
use sakura_chat_server.Prelude.{
  ℕ, zero, suc, ◌+◌, ◌-◌, ◌*◌, ◌^◌, Text, text_eq, ℤ, pos, Bool, true, false, not, ◌&&◌, ◌||◌,
  Option, none, some, List, [], ◌∷◌, ◌++◌, first, map, leb, ltb, int_eq, int_min, int_max,
  is_positive, ◌==◌, if◌then◌else◌, is_empty,
}
use sakura_chat_server.Wire.{valid_text}
use sakura_chat_server.Database.{
  Message, Thread, PrivateChat, Expiry, User, Db, is_some, blocked_between, is_friend,
}
use sakura_chat_server.Database.Sql.{
  Env, Conn, Fault, sql, other, Flow, value, returns, raises, Sql, ◌>>=◌, ◌>>◌, stop, stop_if, pure,
  statement, query, update, begin, commit, rollback, with_lease, catching,
}
use sakura_chat_server.Persistence.{
  chat_not_friend, chat_data_invalid, chat_database_failed, Row, Saved, failed, find_message,
  lookup,
}

-- `std::numeric_limits<std::uint64_t>::max()`
abbrev pub uint64_max : ℕ
uint64_max = 2 ^ 64 - 1

-- The account is there, with `status=0`.
unfoldable pub is_active : ℤ → Db → Bool
is_active uid db = is_some (first (λ u. int_eq u.uid uid && (u.status == 0)) db.users)

-- The join of `friend` with the two accounts.
unfoldable pub may_chat : ℤ → ℤ → Db → Bool
unfolding is_active is_friend
may_chat sender receiver db =
    is_friend sender receiver db && (is_active sender db && is_active receiver db)

-- `SELECT thread_id FROM private_chat WHERE user1_uid=? AND user2_uid=?`
unfoldable pub find_chat : ℤ → ℤ → List PrivateChat → Option PrivateChat
find_chat a b = first (λ p. int_eq p.user1_uid a && int_eq p.user2_uid b)

-- `INSERT INTO chat_thread(type) VALUES('private')` and its `LAST_INSERT_ID()`
unfoldable pub create_thread : Db → ℕ × Db
create_thread db = (
  db.next_thread,
  record db {
    threads =
        record { id = db.next_thread; last_seq = 0; status = 0; last_message_id = none }
        ∷ db.threads;
    next_thread = db.next_thread + 1;
  },
)

unfoldable pub insert_chat : ℕ → ℤ → ℤ → Db → Db
insert_chat thread a b db = record db {
  private_chats = record { thread_id = thread; user1_uid = a; user2_uid = b } ∷ db.private_chats;
}

-- `SELECT last_seq,status FROM chat_thread WHERE id=?`
unfoldable pub find_thread : ℕ → List Thread → Option Thread
find_thread id = first (λ t. t.id == id)

-- The insertion of the message, with its `LAST_INSERT_ID()`.
unfoldable pub insert_message : ℕ → ℕ → Text → ℤ → ℤ → Text → Db → ℕ × Db
insert_message thread seq id sender receiver text db = (
  db.next_message,
  record db {
    messages =
        record {
          message_id = db.next_message;
          thread_id = thread;
          seq = seq;
          client_msg_id = id;
          sender_uid = sender;
          receiver_uid = some receiver;
          content = text;
          status = 0;
          created_ms = db.now;
        }
        ∷ db.messages;
    next_message = db.next_message + 1;
  },
)

-- The insertion of the expiry, for a sender who set a retention.
unfoldable pub insert_expiry : ℕ → ℤ → Db → Db
insert_expiry message sender db =
    elim (first (λ r. int_eq r.uid sender && ltb 0 r.seconds) db.retention) [
      | none ↦ db
      | some r ↦ record db {
        expiry =
            record { message_id = message; expires_at = db.now + r.seconds * 1000 } ∷ db.expiry;
      }
    ]

-- `UPDATE chat_thread SET last_seq=?,last_message_id=LAST_INSERT_ID() WHERE id=?`
unfoldable pub advance_thread : ℕ → ℕ → ℕ → List Thread → List Thread
advance_thread thread seq message =
    map (λ t.
      if t.id == thread then record t { last_seq = seq; last_message_id = some message } else t)

-- How one round of the loop ends: with a reply, or with `continue`.
pub data Round : Type 0 where
  done : Saved → Round
  again : Round

-- The existing row of the id is the answer if it is the same message.
unfoldable pub accepted_before : ℤ → Text → Row → Saved
accepted_before receiver text m =
    if not (int_eq m.touid receiver) || ((m.message_status == 0) && not (text_eq m.content text))
    then failed chat_data_invalid
    else record { error = 0; message = some m }

unfoldable pub stop_existing : ℤ → Text → Option Row → Sql Round (Unit {0})
unfolding accepted_before
stop_existing receiver text none = pure tt
stop_existing receiver text (some m) = stop (done (accepted_before receiver text m))

-- The thread of the two users, created if there is none.
unfoldable pub thread_of : Env → ℤ → ℤ → ℕ → Sql Round ℕ
unfolding create_thread insert_chat
thread_of env a b (suc n) = pure (suc n)
thread_of env a b zero = do
  thread ← statement env create_thread
  update env (insert_chat thread a b)
  pure thread

-- `thread`, as it is after the rows were looked at
abbrev pub thread_or_zero : Option PrivateChat → ℕ
thread_or_zero none = 0
thread_or_zero (some p) = p.thread_id

-- The checks on the locked thread, and the next number in it.
unfoldable pub next_seq : Option Thread → Sql Round ℕ
next_seq none = stop (done (failed chat_data_invalid))
next_seq (some t) =
    if not (t.status == 0) || (t.last_seq == uint64_max)
    then stop (done (failed chat_data_invalid))
    else pure (t.last_seq + 1)

-- `if (found) { rollback; continue; }`
unfoldable pub stop_duplicate : Env → Bool → Sql Round (Unit {0})
stop_duplicate env false = pure tt
stop_duplicate env true = do rollback env; stop again

-- The insertions, the commit, and the reply.
unfoldable pub write_message : Env → ℤ → ℤ → Text → Text → ℕ → ℕ → Sql Round Round
unfolding lookup
write_message env sender receiver id text thread seq = do
  message ← statement env (insert_message thread seq id sender receiver text)
  update env (insert_expiry message sender)
  update env (λ db. record db { threads = advance_thread thread seq message db.threads })
  commit env
  stored ← query env (lookup env sender id)
  pure (done (record { error = 0; message = stored }))

-- From the lock on the thread on.
unfoldable pub store_in_thread : Env → ℤ → ℤ → Text → Text → ℕ → Sql Round Round
unfolding next_seq stop_duplicate
store_in_thread env sender receiver id text thread = do
  locked ← query env (λ db. find_thread thread db.threads)
  seq ← next_seq locked
  duplicate ← query env (λ db. find_message env sender id db.messages)
  stop_duplicate env (is_some duplicate)
  write_message env sender receiver id text thread seq

-- The transaction.
unfoldable pub store_new : Env → ℤ → ℤ → Text → Text → Sql Round Round
unfolding thread_of
store_new env sender receiver id text = do
  begin env
  blocked ← query env (blocked_between sender receiver)
  stop_if blocked (done (failed chat_not_friend))
  friends ← query env (may_chat sender receiver)
  stop_if (not friends) (done (failed chat_not_friend))
  let a = int_min sender receiver
  let b = int_max sender receiver
  chat ← query env (λ db. find_chat a b db.private_chats)
  thread ← thread_of env a b (thread_or_zero chat)
  store_in_thread env sender receiver id text thread

-- The `try` block of a round.
unfoldable pub store_round : Env → ℤ → ℤ → Text → Text → Sql Round Round
unfolding stop_existing lookup
store_round env sender receiver id text = do
  existing ← query env (lookup env sender id)
  stop_existing receiver text existing
  store_new env sender receiver id text

-- Duplicate key, deadlock, lock wait timeout.
unfoldable pub is_transient : ℕ → Bool
is_transient code = (code == 1062) || ((code == 1213) || (code == 1205))

-- What follows a round; `more` is `attempt < 2`.
unfoldable pub verdict : Bool → Flow Round Round → Round
unfolding is_transient
verdict more (value r) = r
verdict more (returns r) = r
verdict more (raises other) = done (failed chat_database_failed)
verdict more (raises (sql code)) =
    if is_transient code && more then again else done (failed chat_database_failed)

-- The loop, with the rounds that are left.
unfoldable pub store_rounds : Env → ℤ → ℤ → Text → Text → ℕ → Conn → Saved × Conn
unfolding verdict store_round with_lease
store_rounds env sender receiver id text zero c = (failed chat_database_failed, c)
store_rounds env sender receiver id text (suc left) c =
    let (r, c') = with_lease env (store_round env sender receiver id text) c in
    elim (verdict (ltb 0 left) r) [
      | done s ↦ (s, c')
      | again ↦ store_rounds env sender receiver id text left c'
    ]

-- `StoreTextMessage`
unfoldable pub store_text_message : Env → ℤ → ℤ → Text → Text → Conn → Saved × Conn
unfolding store_rounds
store_text_message env sender receiver id text c =
    if (not (is_positive sender) || not (is_positive receiver))
      || (int_eq sender receiver || not (valid_text id text))
    then (failed chat_data_invalid, c)
    else store_rounds env sender receiver id text 3 c

-- `StoredText`
unfoldable pub stored_text : Env → ℤ → Text → Conn → Saved × Conn
unfolding lookup
stored_text env sender id =
    catching
      (with_lease env
        (do m ← query env (lookup env sender id); pure (record { error = 0; message = m })))
      (failed chat_database_failed)
