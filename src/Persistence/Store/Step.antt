-- ===== src/Persistence/Store/Step.antt =====
-- What a stored message is (`MysqlDao::StoreTextMessage`), as one step of the tables.
use sakura_chat_server.Prelude.{
  ℕ, zero, suc, ◌+◌, ◌≡◌, ◌≢◌, refl, Text, ℤ, true, false, none, some, int_min, int_max,
}
use sakura_chat_server.Database.{Thread, Db, blocked_between}
use sakura_chat_server.Database.Sql.{Env}
use sakura_chat_server.Persistence.{find_message}
use sakura_chat_server.Persistence.Store.{
  uint64_max, may_chat, find_chat, create_thread, insert_chat, find_thread, insert_message,
  insert_expiry, advance_thread, thread_or_zero,
}

-- The thread of two users, and the tables once it is there.
abbrev pub opened : ℤ → ℤ → ℕ → Db → ℕ × Db
opened a b zero d = (d.next_thread, insert_chat d.next_thread a b (create_thread d).1)
opened a b (suc n) d = (suc n, d)

abbrev pub thread_in : ℤ → ℤ → Db → ℕ × Db
thread_in sender receiver d =
    let a = int_min sender receiver in
    let b = int_max sender receiver in opened a b (thread_or_zero (find_chat a b d.private_chats)) d

-- The tables with the message at number `seq` of the thread.
abbrev pub appended : ℕ → ℕ → ℤ → ℤ → Text → Text → Db → Db
appended thread seq sender receiver id text d =
    let e =
      insert_expiry d.next_message sender (insert_message thread seq id sender receiver text d).1 in
    record e { threads = advance_thread thread seq d.next_message e.threads }

-- `e` is `d` with the message stored: the two may chat, the id is new to the sender, the thread
-- is open, and the message is the next of it.
pub record Stored (env : Env) (sender receiver : ℤ) (id text : Text) (d e : Db) : Type 0 where
  pub thread : Thread
  pub unblocked : blocked_between sender receiver d ≡ false
  pub friends : may_chat sender receiver d ≡ true
  pub fresh : find_message env sender id d.messages ≡ none
  pub found :
      find_thread (thread_in sender receiver d).0 (thread_in sender receiver d).1.threads
      ≡ some thread
  pub open_thread : thread.status ≡ 0
  pub below : thread.last_seq ≢ uint64_max
  pub result :
      e
      ≡ appended
          (thread_in sender receiver d).0
          (thread.last_seq + 1)
          sender
          receiver
          id
          text
          (thread_in sender receiver d).1

pub opened-messages : (a b : ℤ) (t : ℕ) (d : Db) → (opened a b t d).1.messages ≡ d.messages
unfolding create_thread insert_chat
opened-messages a b zero d = refl
opened-messages a b (suc t) d = refl
