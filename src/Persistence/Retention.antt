-- ===== src/Persistence/Retention.antt =====
-- `MysqlDao::ExpireMessages` (Common/src/ChatPersistence.cpp): the deletion of messages that are due.
pub mod Rows
pub mod Erases
pub mod Scan
pub mod Expired
use sakura_chat_server.Prelude.{
  ℕ, ℤ, Bool, true, false, ◌&&◌, ◌||◌, none, some, List, [], ◌∷◌, take, leb, ltb, ◌==◌,
  if◌then◌else◌,
}
use sakura_chat_server.Database.{Message, Expiry, Db}
use sakura_chat_server.Database.Sql.{
  Env, Conn, Flow, value, returns, raises, Sql, query, with_lease,
}
use sakura_chat_server.Database.Triple.{statement-ends}
use sakura_chat_server.Database.Leases.{Kept, Over, leased-Over}
use sakura_chat_server.Persistence.Deletion.{find_by_id, delete_message}
use sakura_chat_server.Persistence.Deletion.Step.{Inv}
use sakura_chat_server.Persistence.Deletion.Numbers.{delete_message-Over}

-- `ORDER BY e.expires_at,e.message_id`
abbrev pub before : Expiry → Expiry → Bool
before a b =
    ltb a.expires_at b.expires_at
    || ((a.expires_at == b.expires_at) && leb a.message_id b.message_id)

unfoldable pub insert_sorted : Expiry → List Expiry → List Expiry
insert_sorted e [] = e ∷ []
insert_sorted e (x ∷ xs) =
    let rest = insert_sorted e xs in if before e x then e ∷ x ∷ xs else x ∷ rest

unfoldable pub sorted : List Expiry → List Expiry
unfolding insert_sorted
sorted [] = []
sorted (e ∷ es) = insert_sorted e (sorted es)

-- The join with the messages: the sender of the message that an expiry is of.
unfoldable pub senders : List Message → List Expiry → List (ℤ × ℕ)
unfolding find_by_id
senders ms [] = []
senders ms (e ∷ es) = elim (find_by_id e.message_id ms) [
  | none ↦ senders ms es
  | some m ↦ (m.sender_uid, e.message_id) ∷ senders ms es
]

unfoldable pub due_only : ℕ → List Expiry → List Expiry
due_only now [] = []
due_only now (e ∷ es) =
    let rest = due_only now es in if leb e.expires_at now then e ∷ rest else rest

-- `... WHERE e.expires_at<=CURRENT_TIMESTAMP(3) ORDER BY ... LIMIT 20`
unfoldable pub due_messages : Db → List (ℤ × ℕ)
unfolding sorted senders due_only
due_messages db = take 20 (senders db.messages (sorted (due_only db.now db.expiry)))

-- The loop over the due messages: each with a transaction of its own.
unfoldable pub delete_due : Env → List (ℤ × ℕ) → Conn → Bool × Conn
unfolding delete_message
delete_due env [] c = (true, c)
delete_due env ((sender, id) ∷ rest) c =
    let (d, c1) = delete_message env sender id true c in
    let (ok, c2) = delete_due env rest c1 in ((d.error == 0) && ok, c2)

-- The rows of the scan, or the failure that ends the method.
unfoldable pub delete_scanned : Env → Flow (List (ℤ × ℕ)) (List (ℤ × ℕ)) × Conn → Bool × Conn
unfolding delete_due
delete_scanned env (value due, c) = delete_due env due c
delete_scanned env (returns due, c) = delete_due env due c
delete_scanned env (raises e, c) = (false, c)

-- `ExpireMessages`
unfoldable pub expire_messages : Env → Conn → Bool × Conn
unfolding due_messages delete_scanned
expire_messages env c = delete_scanned env (with_lease env (query env due_messages) c)

module _ (env : Env) (others : (n : ℕ) (d : Db) → Inv d → Inv (env.interfere n d)) where
  delete_due-Over : (due : List (ℤ × ℕ)) (c : Conn) → Over Inv c → Over Inv (delete_due env due c).1
  unfolding delete_due
  delete_due-Over [] c v = v
  delete_due-Over ((sender, id) ∷ rest) c v =
      delete_due-Over rest _ (delete_message-Over env others sender id true c v)

  delete_scanned-Over :
      (out : Flow (List (ℤ × ℕ)) (List (ℤ × ℕ)) × Conn)
      → Over Inv out.1
      → Over Inv (delete_scanned env out).1
  unfolding delete_scanned
  delete_scanned-Over (value due, c) v = delete_due-Over due c v
  delete_scanned-Over (returns due, c) v = delete_due-Over due c v
  delete_scanned-Over (raises e, c) v = v

  -- A pass over the due messages, whichever of its calls fail and whatever others commit as long as
  -- that keeps the invariant of the deletion events: the events of each owner stay numbered in their
  -- order, and no transaction is left open.
  pub expire_messages-Over : (c : Conn) → Over Inv c → Over Inv (expire_messages env c).1
  unfolding expire_messages
  expire_messages-Over c v = delete_scanned-Over (with_lease env scan c) (
      leased-Over Inv env scan c
        (λ d n w.
          statement-ends (Kept Inv) Inv (Kept Inv) env _ d n (others n d w) λ _. others n d w)
        v)
    where
      scan : Sql (List (ℤ × ℕ)) (List (ℤ × ℕ))
      scan = query env due_messages
