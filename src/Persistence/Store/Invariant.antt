-- ===== src/Persistence/Store/Invariant.antt =====
-- What the tables satisfy whatever messages were stored: the numbers in a thread, and the ids that
-- a sender used, name one message.
use sakura_chat_server.Prelude.{
  ℕ, zero, suc, ◌+◌, ◌≤◌, ◌<◌, ◌≡◌, refl, sym, ap, ◌∙◌, subst, Text, ℤ, false, ◌&&◌, none, some,
  List, ◌∷◌, arith, All, Pairwise, All-zip, All-imp, All-map, first-found, first-none, int_eq, ◌*◌,
  ltb, ==_iff, first,
}
use sakura_chat_server.Database.{Message, Thread, Db}
use sakura_chat_server.Database.Sql.{Env}
use sakura_chat_server.Database.Triple.{idle}
use sakura_chat_server.Persistence.{find_message}
use sakura_chat_server.Persistence.Store.{
  find_thread, create_thread, insert_chat, insert_message, insert_expiry, advance_thread,
  store_text_message,
}
use sakura_chat_server.Persistence.Store.Step.{opened, appended, Stored, opened-messages}
use sakura_chat_server.Persistence.Store.Committed.{store_text_message-Over}

-- The messages `m` and `n` are told apart by their ids, by their places in a thread, and by the ids
-- that their sender gave them.
pub record Apart (env : Env) (m n : Message) : Type 0 where
  pub ids : n.message_id < m.message_id
  pub places : n.thread_id ≡ m.thread_id → n.seq < m.seq
  pub client_ids :
      (int_eq n.sender_uid m.sender_uid && env.same n.client_msg_id m.client_msg_id) ≡ false

-- A message is in the tables of its thread: below its last number.
pub record Placed (next_message next_thread : ℕ) (threads : List Thread) (m : Message)
    : Type 0 where
  pub id_below : m.message_id < next_message
  pub thread_below : m.thread_id < next_thread
  pub seq_below : All (λ t. t.id ≡ m.thread_id → m.seq ≤ t.last_seq) threads

pub record Inv (env : Env) (d : Db) : Type 0 where
  pub placed : All (Placed d.next_message d.next_thread d.threads) d.messages
  pub threads : All (λ t. t.id < d.next_thread) d.threads
  pub apart : Pairwise (Apart env) d.messages

-- Another thread changes nothing for the messages that are there.
opened-Inv : (env : Env) (a b : ℤ) (t : ℕ) (d : Db) → Inv env d → Inv env (opened a b t d).1
unfolding create_thread insert_chat
opened-Inv env a b zero d v = record {
  placed =
      All-imp _ _
        (λ m p. record {
          id_below = p.id_below;
          thread_below = omega (arith, p.thread_below);
          seq_below = (λ e. absurd (omega (arith, p.thread_below)), p.seq_below);
        })
        d.messages v.placed;
  threads = (omega arith, All-imp _ _ (λ t p. omega (arith, p)) d.threads v.threads);
  apart = v.apart;
}
opened-Inv env a b (suc t) d v = v

-- The new number of a thread is above those of its messages.
advanced :
    (thread seq message : ℕ) (m : Message) (ts : List Thread)
    → (thread ≡ m.thread_id → m.seq ≤ seq)
    → All (λ t. t.id ≡ m.thread_id → m.seq ≤ t.last_seq) ts
    → All (λ t. t.id ≡ m.thread_id → m.seq ≤ t.last_seq) (advance_thread thread seq message ts)
unfolding advance_thread
advanced thread seq message m ts h a = All-map _ _ _ (λ t p. ground arith) ts a

-- The expiry of the message is no part of the invariant.
expiry-Inv :
    (env : Env) (message : ℕ) (sender : ℤ) (d : Db) (f : List Thread → List Thread)
    → Inv env (record d { threads = f d.threads })
    → let e = insert_expiry message sender d in Inv env (record e { threads = f e.threads })
unfolding insert_expiry
expiry-Inv env message sender d f v =
    elim (first (λ r. int_eq r.uid sender && ltb 0 r.seconds) d.retention)
      as (λ o.
        let e : Db = elim o [
          | none ↦ d
          | some r ↦ record d {
            expiry =
                record { message_id = message; expires_at = d.now + r.seconds * 1000 } ∷ d.expiry;
          }
        ] in
        Inv env (record e { threads = f e.threads })) [
          | none ↦ v
          | some r ↦ record { placed = v.placed; threads = v.threads; apart = v.apart }
        ]

-- The row that is found bounds the numbers of its thread.
last_number :
    (thread : ℕ) (ts : List Thread) (t : Thread) (m : Message)
    → find_thread thread ts ≡ some t
    → All (λ x. x.id ≡ m.thread_id → m.seq ≤ x.last_seq) ts
    → thread ≡ m.thread_id
    → m.seq ≤ t.last_seq
unfolding find_thread
last_number thread ts t m found a e =
    let (below, hit) = first-found (λ x. x.id ≡ m.thread_id → m.seq ≤ x.last_seq) _ ts t found a in
    below ((==_iff t.id thread).0 hit ∙ e)

found_below :
    (thread : ℕ) (ts : List Thread) (t : Thread) (n : ℕ)
    → find_thread thread ts ≡ some t
    → All (λ x. x.id < n) ts
    → thread < n
unfolding find_thread
found_below thread ts t n found a =
    let (below, hit) = first-found (λ x. x.id < n) _ ts t found a in
    subst (λ i. i < n) ((==_iff t.id thread).0 hit) below

-- The next message of a thread is apart from all that are there.
next-Apart :
    (env : Env) (d : Db) (t : Thread) (thread : ℕ) (sender receiver : ℤ) (id text : Text)
    → Inv env d
    → find_thread thread d.threads ≡ some t
    → find_message env sender id d.messages ≡ none
    → All
        (Apart env (record {
          message_id = d.next_message;
          thread_id = thread;
          seq = t.last_seq + 1;
          client_msg_id = id;
          sender_uid = sender;
          receiver_uid = some receiver;
          content = text;
          status = 0;
          created_ms = d.now;
        }))
        d.messages
unfolding find_thread find_message
next-Apart env d t thread sender receiver id text v found fresh =
    All-zip _ _ _
      (λ m p q. record {
        ids = p.id_below;
        places = λ e. omega (arith, last_number thread d.threads t m found p.seq_below (sym e));
        client_ids = q;
      })
      d.messages v.placed (first-none _ d.messages fresh)

appended-Inv :
    (env : Env) (d : Db) (t : Thread) (thread : ℕ) (sender receiver : ℤ) (id text : Text)
    → Inv env d
    → find_thread thread d.threads ≡ some t
    → find_message env sender id d.messages ≡ none
    → Inv env (appended thread (t.last_seq + 1) sender receiver id text d)
unfolding insert_message advance_thread
appended-Inv env d t thread sender receiver id text v found fresh =
    let thread_below : thread < d.next_thread =
      found_below thread d.threads t d.next_thread found v.threads in
    expiry-Inv env d.next_message sender _ (advance_thread thread (t.last_seq + 1) d.next_message)
      record {
        placed = (
          record {
            id_below = omega arith;
            thread_below = thread_below;
            seq_below = All-map _ _ _ (λ x p. ground arith) d.threads v.threads;
          },
          All-imp _ _
              (λ m p. record {
                id_below = omega (arith, p.id_below);
                thread_below = p.thread_below;
                seq_below =
                    advanced thread (t.last_seq + 1) d.next_message m d.threads
                      (λ e. omega (arith, last_number thread d.threads t m found p.seq_below e))
                      p.seq_below;
              })
              d.messages v.placed,
        );
        threads = All-map _ _ _ (λ x p. ground arith) d.threads v.threads;
        apart = (next-Apart env d t thread sender receiver id text v found fresh, v.apart);
      }

Stored-Inv :
    (env : Env) (sender receiver : ℤ) (id text : Text) (d e : Db)
    → Stored env sender receiver id text d e
    → Inv env d
    → Inv env e
Stored-Inv env sender receiver id text d e w v = subst (Inv env) (sym w.result) (
    appended-Inv env _ w.thread _ sender receiver id text (opened-Inv env _ _ _ d v) w.found
      (ap (find_message env sender id) (opened-messages _ _ _ d) ∙ w.fresh))

-- Whichever statements, commits and rollbacks of `StoreTextMessage` fail, and whatever other
-- connections commit in between, as long as that keeps the invariant: no transaction is left open,
-- and the stored messages are apart by their ids, by their numbers in a thread, and by the ids that
-- a sender gave them, every number being at most the last of its thread.
pub store_text_message-Inv :
    (env : Env) (sender receiver : ℤ) (id text : Text) (d : Db) (n : ℕ)
    → ((i : ℕ) (e : Db) → Inv env e → Inv env (env.interfere i e))
    → Inv env d
    → let c = (store_text_message env sender receiver id text (idle d n)).1 in
      (c.saved ≡ none) × Inv env c.db
store_text_message-Inv env sender receiver id text d n others v =
    let over =
      store_text_message-Over env sender receiver id text (Inv env) others
        (Stored-Inv env sender receiver id text) (idle d n)
        (record { none_open = refl; holds = v }) in
    (over.none_open, over.holds)
