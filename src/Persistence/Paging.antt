-- ===== src/Persistence/Paging.antt =====
-- `MysqlDao::DeletionEvents` and `MysqlDao::ChatConversations` (Common/src/ChatPersistence.cpp): lists
-- of items that are sent in pages, each with a cursor for the next.
pub mod Pages
use sakura_chat_server.Prelude.{
  ℕ, suc, ◌+◌, ◌≤◌, ◌⊎◌, inl, inr, ◌≢◌, none-ne-some, sym, Text, ℤ, Bool, true, false, not, ◌&&◌,
  ◌||◌, Option, none, some, List, [], ◌∷◌, ◌++◌, keep, first, map, take, length, is_empty, leb, ltb,
  int_eq, is_positive, ◌==◌, if◌then◌else◌, ◌≡◌, refl, ap, ◌∙◌, arith, length-append,
}
use sakura_chat_server.Database.{DeleteEvent, Thread, PrivateChat, Db}
use sakura_chat_server.Database.Sql.{
  Env, Conn, Sql, ◌>>=◌, pure, query, statement, with_lease, catching,
}
use sakura_chat_server.Database.Triple.{idle}
use sakura_chat_server.Persistence.{chat_data_invalid, chat_database_failed}

-- The members `items`, `next_event` (or `next_thread`) and `has_more` of a reply.
pub record Page (A : Type 0) : Type 0 where
  pub items : List A
  pub next : ℕ
  pub has_more : Bool

-- A reply, with a page when there is no error.
pub record Paged (A : Type 0) : Type 0 where
  pub error : ℕ
  pub page : Option (Page A)

pub record EventItem : Type 0 where
  pub event_seq : ℕ
  pub message_id : ℕ
  pub sender_uid : ℤ
  pub msgid : Text

pub record ConversationItem : Type 0 where
  pub thread_id : ℕ
  pub peer_uid : ℤ
  pub last_seq : ℕ

abbrev pub first_page : {A : Type 0} → ℕ → Page A
first_page after = record { items = []; next = after; has_more = false }

-- The loop over the rows. `size` is that of `ChatWire::Compact`, jsoncpp's print of the candidate,
-- and `limit` what it may be.
module _ {A : Type 0} (cursor : A → ℕ) (limit : ℕ) (size : Page A → ℕ) where
  unfoldable pub with_item : Page A → A → Page A
  with_item r item = record r { items = r.items ++ item ∷ []; next = cursor item }

  unfoldable pub gather : List A → Page A → Page A
  unfolding with_item
  gather [] r = r
  gather (item ∷ rest) r =
      let candidate = with_item r item in
      let more = gather rest candidate in
      if leb 20 (length r.items) || ltb limit (size candidate)
      then record r { has_more = true }
      else more

module _ {A : Type 0} (cursor : A → ℕ) where
  -- The cursor after some items.
  unfoldable pub last_cursor : ℕ → List A → ℕ
  last_cursor after [] = after
  last_cursor after (item ∷ rest) = last_cursor (cursor item) rest

  -- `ORDER BY` a number
  unfoldable pub insert_by : A → List A → List A
  insert_by a [] = a ∷ []
  insert_by a (x ∷ xs) =
      let rest = insert_by a xs in if leb (cursor a) (cursor x) then a ∷ x ∷ xs else x ∷ rest

  unfoldable pub sort_by : List A → List A
  unfolding insert_by
  sort_by [] = []
  sort_by (x ∷ xs) = insert_by x (sort_by xs)

abbrev pub event_cursor : EventItem → ℕ
event_cursor item = item.event_seq

abbrev pub event_item : DeleteEvent → EventItem
event_item e = record {
  event_seq = e.event_seq;
  message_id = e.message_id;
  sender_uid = e.sender_uid;
  msgid = e.client_msg_id;
}

-- `WHERE owner_uid=? AND event_seq>? ORDER BY event_seq LIMIT 21`
unfoldable pub event_rows : ℤ → ℕ → Db → List EventItem
unfolding sort_by
event_rows actor after db = take 21 (
    sort_by event_cursor
      (map event_item (keep (λ e. int_eq e.owner_uid actor && ltb after e.event_seq) db.events)))

abbrev pub conversation_cursor : ConversationItem → ℕ
conversation_cursor item = item.thread_id

abbrev pub peer_of : ℤ → PrivateChat → ℤ
peer_of actor p = if int_eq p.user1_uid actor then p.user2_uid else p.user1_uid

-- The join of the private chats with their threads.
unfoldable pub conversations_of : ℤ → List Thread → List PrivateChat → List ConversationItem
conversations_of actor threads [] = []
conversations_of actor threads (p ∷ rest) = elim (first (λ t. t.id == p.thread_id) threads) [
  | none ↦ conversations_of actor threads rest
  | some t ↦
      record { thread_id = p.thread_id; peer_uid = peer_of actor p; last_seq = t.last_seq }
      ∷ conversations_of actor threads rest
]

-- `WHERE (p.user1_uid=? OR p.user2_uid=?) AND p.thread_id>? ORDER BY p.thread_id LIMIT 21`
unfoldable pub conversation_rows : ℤ → ℕ → Db → List ConversationItem
unfolding sort_by conversations_of
conversation_rows actor after db = take 21 (
    sort_by conversation_cursor (
      conversations_of actor db.threads (
        keep (λ p. (int_eq p.user1_uid actor || int_eq p.user2_uid actor) && ltb after p.thread_id)
          db.private_chats)))

abbrev pub no_page : {A : Type 0} → ℕ → Paged A
no_page code = record { error = code; page = none }

-- The `try` block of both methods.
unfoldable pub send_page :
    {A : Type 0} → Env → (Db → List A) → (List A → Page A) → Sql (Paged A) (Paged A)
send_page env scan pages = do
  rows ← query env scan
  pure (record { error = 0; page = some (pages rows) })

-- `DeletionEvents`
unfoldable pub deletion_events : Env → (Page EventItem → ℕ) → ℤ → ℕ → Conn → Paged EventItem × Conn
unfolding send_page gather event_rows
deletion_events env size actor after c =
    if not (is_positive actor)
    then (no_page chat_data_invalid, c)
    else catching
        (with_lease env (
          send_page env (event_rows actor after)
            (λ rows. gather event_cursor 1400 size rows (first_page after))))
        (no_page chat_database_failed) c

-- `ChatConversations`
unfoldable pub chat_conversations :
    Env → (Page ConversationItem → ℕ) → ℤ → ℕ → Conn → Paged ConversationItem × Conn
unfolding send_page gather conversation_rows
chat_conversations env size actor after c =
    catching
      (with_lease env (
        send_page env (conversation_rows actor after)
          (λ rows. gather conversation_cursor 1450 size rows (first_page after))))
      (no_page chat_database_failed) c
