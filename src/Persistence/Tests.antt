-- ===== src/Persistence/Tests.antt =====
-- Runs of the methods of Common/src/ChatPersistence.cpp on a small database.
use sakura_chat_server.Prelude.{
  ℕ, Option, Bool, ◌≡◌, ◌⊎◌, refl, Text, ascii, text_eq, text_eq_self, pos, true, false, none, some,
  [], ◌∷◌, arith, map, length, ◌*◌, ◌==◌, if◌then◌else◌,
}
use sakura_chat_server.Database.{Db, User}
use sakura_chat_server.Database.Sql.{
  begin, commit, Env, ◌>>=◌, statement, stop_if, pure, catching, with_lease,
}
use sakura_chat_server.Database.Triple.{idle}
use sakura_chat_server.Database.{blocked_between}
use sakura_chat_server.Persistence.Deletion
use sakura_chat_server.Persistence.Deletion.{delete_message}
use sakura_chat_server.Persistence.Deletion.Numbers.{delete_message-Inv}
use sakura_chat_server.Persistence.Retention.{expire_messages}
use sakura_chat_server.Persistence.Retention.Expired.{Expired, expire_messages-Expired}
use sakura_chat_server.Persistence.Paging.{
  EventItem, ConversationItem, Page, event_cursor, event_rows, gather, first_page,
}
use sakura_chat_server.Persistence.Receipts.{record_receipt}
use sakura_chat_server.Persistence.Receipts.Monotone.{Ahead, record_receipt-Ahead}
use sakura_chat_server.Persistence.Privacy.{
  request_policy, policy_of, block_check, by_policy, check_privacy, privacy_allows,
}
use sakura_chat_server.Persistence.Privacy.Sound.{undisturbed, allowed, privacy_allows-allowed}
use sakura_chat_server.Persistence.Store.{store_text_message}
use sakura_chat_server.Persistence.Store.Step.{Stored}
use sakura_chat_server.Persistence.Store.Invariant.{Inv, store_text_message-Inv}
use sakura_chat_server.Persistence.Store.Outcome.{calm, answer, store_text_message-answer}
use sakura_chat_server.Persistence.Store.Once.{store_text_message-once}

abbrev pub id_one : Text
id_one = ascii "00000000-0000-0000-0000-000000000001"

abbrev pub id_two : Text
id_two = ascii "00000000-0000-0000-0000-000000000002"

abbrev pub plain_user : ℕ → User
plain_user n = record {
  uid = pos n;
  name = [];
  email = [];
  pwd = [];
  nick = [];
  desc = [];
  gender = 0;
  icon = [];
  status = 0;
}

-- Two friends with one message between them, and a retention of a day.
abbrev pub two_friends : Db
two_friends = record {
  users = plain_user 1 ∷ plain_user 2 ∷ [];
  applies = [];
  next_apply = 1;
  devices = [];
  prekeys = [];
  envelopes = [];
  next_envelope = 1;
  last_uid = 2;
  friends =
      record { self_uid = pos 1; friend_uid = pos 2; remark = [] }
      ∷ record { self_uid = pos 2; friend_uid = pos 1; remark = [] }
      ∷ [];
  blocks = [];
  threads = record { id = 7; last_seq = 3; status = 0; last_message_id = some 9 } ∷ [];
  private_chats = record { thread_id = 7; user1_uid = pos 1; user2_uid = pos 2 } ∷ [];
  messages =
      record {
        message_id = 9;
        thread_id = 7;
        seq = 3;
        client_msg_id = id_one;
        sender_uid = pos 1;
        receiver_uid = some (pos 2);
        content = ascii "hello";
        status = 0;
        created_ms = 1000;
      }
      ∷ [];
  expiry = [];
  receipts = [];
  retention = record { uid = pos 1; seconds = 86400 } ∷ [];
  privacy = [];
  heads = [];
  events = [];
  next_thread = 8;
  next_message = 10;
  now = 5000;
}

-- A server whose eighth call meets a deadlock.
abbrev pub deadlock : Env
deadlock = record {
  fault = λ n. if n == 8 then some 1213 else none;
  commit_applied = λ n. false;
  leases = λ n. true;
  interfere = λ n d. d;
  same = text_eq;
}

two_friends-Inv : Inv deadlock two_friends
two_friends-Inv = record {
  placed = (
    record {
      id_below = omega arith;
      thread_below = omega arith;
      seq_below = (λ e. omega arith, tt);
    },
    tt,
  );
  threads = (omega arith, tt);
  apart = (tt, tt);
}

store_text_message-Inv_example :
    let c =
      (store_text_message deadlock (pos 1) (pos 2) id_two (ascii "again") (idle two_friends 0)).1 in
    (c.saved ≡ none) × Inv deadlock c.db
store_text_message-Inv_example =
    store_text_message-Inv deadlock (pos 1) (pos 2) id_two (ascii "again") two_friends 0
      (λ i e v. v) two_friends-Inv

store_text_message-once_example :
    let e =
      (store_text_message deadlock
        (pos 1)
        (pos 2)
        id_two
        (ascii "again")
        (idle two_friends 0)).1.db in
    (e ≡ two_friends) ⊎ Stored deadlock (pos 1) (pos 2) id_two (ascii "again") two_friends e
store_text_message-once_example =
    store_text_message-once deadlock (pos 1) (pos 2) id_two (ascii "again") two_friends 0
      (λ i e. refl) text_eq_self

store_text_message-answer_example :
    let (s, c) =
      store_text_message
        (calm text_eq)
        (pos 1)
        (pos 2)
        id_two
        (ascii "again")
        (idle two_friends 0) in
    (s ≡ (answer text_eq (pos 1) (pos 2) id_two (ascii "again") two_friends).0)
    × (c.db ≡ (answer text_eq (pos 1) (pos 2) id_two (ascii "again") two_friends).1)
store_text_message-answer_example =
    store_text_message-answer text_eq (pos 1) (pos 2) id_two (ascii "again") two_friends 0

two_friends-Deletion_Inv : Deletion.Step.Inv two_friends
two_friends-Deletion_Inv = record { known = tt; ordered = tt }

delete_message-Inv_example :
    let c = (delete_message deadlock (pos 1) 9 true (idle two_friends 0)).1 in
    (c.saved ≡ none) × Deletion.Step.Inv c.db
delete_message-Inv_example =
    delete_message-Inv deadlock (pos 1) 9 true two_friends 0 (λ i e v. v) two_friends-Deletion_Inv

record_receipt-Ahead_example :
    let c = (record_receipt deadlock (pos 2) 9 true (idle two_friends 0)).1 in
    (c.saved ≡ none) × Ahead two_friends c.db
record_receipt-Ahead_example =
    record_receipt-Ahead deadlock (pos 2) 9 true two_friends 0 (λ i e j u. omega arith)

abbrev no_fault : ℕ → Option ℕ
no_fault n = none

abbrev always : ℕ → Bool
always n = true

request_allowed :
    (privacy_allows
      (undisturbed no_fault always always text_eq)
      (pos 2)
      (pos 1)
      request_policy
      (idle two_friends 0)).0
    ≡ true
unfolding privacy_allows blocked_between policy_of catching with_lease check_privacy block_check
    by_policy ◌>>=◌ statement stop_if pure
request_allowed = refl

privacy_allows-allowed_example : allowed (pos 2) (pos 1) request_policy two_friends ≡ true
privacy_allows-allowed_example =
    privacy_allows-allowed no_fault always always text_eq (pos 2) (pos 1) request_policy two_friends
      0 request_allowed

-- The message is due.
abbrev due_now : Db
due_now = record two_friends { expiry = record { message_id = 9; expires_at = 0 } ∷ [] }

abbrev no_failure : Env
no_failure = undisturbed no_fault always always text_eq

expired : (expire_messages no_failure (idle due_now 0)).0 ≡ true
unfolding expire_messages with_lease statement catching ◌>>=◌ begin pure stop_if commit
expired = refl

expire_messages-Expired_example :
    Expired no_failure (λ n d. refl) due_now (expire_messages no_failure (idle due_now 0))
expire_messages-Expired_example = expire_messages-Expired no_failure (λ n d. refl) due_now 0

abbrev event_of : ℕ → EventItem
event_of seq = record { event_seq = seq; message_id = 9; sender_uid = pos 1; msgid = id_one }

-- Two of the events fit, and the third would not.
abbrev two_fit : Page EventItem → ℕ
two_fit p = 500 * length p.items

cut_items :
    let p =
      gather event_cursor 1400 two_fit (event_of 4 ∷ event_of 5 ∷ event_of 8 ∷ []) (first_page 3) in
    (p.items ≡ event_of 4 ∷ event_of 5 ∷ []) × (p.next ≡ 5) × (p.has_more ≡ true)
unfolding gather
cut_items = (refl, refl, refl)

abbrev with_events : Db
with_events = record two_friends {
  events =
      record {
        owner_uid = pos 1;
        event_seq = 2;
        message_id = 9;
        sender_uid = pos 1;
        client_msg_id = id_one;
      }
      ∷ record {
        owner_uid = pos 1;
        event_seq = 1;
        message_id = 8;
        sender_uid = pos 2;
        client_msg_id = id_two;
      }
      ∷ [];
}

events_in_order : map event_cursor (event_rows (pos 1) 0 with_events) ≡ 1 ∷ 2 ∷ []
unfolding event_rows
events_in_order = refl

abbrev roomy : Page ConversationItem → ℕ
roomy p = 100 * length p.items
