-- ===== src/Persistence/History.antt =====
-- `MysqlDao::ChatHistory` (Common/src/ChatPersistence.cpp): the messages of two users, in pages.
pub mod Sent
use sakura_chat_server.Prelude.{
  ℕ, Text, ℤ, Bool, true, false, not, ◌&&◌, ◌||◌, Option, none, some, List, [], ◌∷◌, keep, map,
  first, take, length, is_empty, leb, ltb, int_eq, int_min, int_max, ◌==◌, if◌then◌else◌,
}
use sakura_chat_server.Database.{Message, DeleteEvent, PrivateChat, Db, is_some}
use sakura_chat_server.Database.Sql.{Env, Conn, Sql, ◌>>=◌, pure, query, with_lease, catching}
use sakura_chat_server.Persistence.{chat_data_invalid, chat_database_failed, Row, row}
use sakura_chat_server.Persistence.Paging.{Page, Paged, first_page, with_item, sort_by, no_page}

-- A message, and whether its content is replaced.
pub record HistoryItem : Type 0 where
  pub row : Row
  pub content_truncated : Bool

-- The bytes of the text that stands for a content that is too long.
abbrev pub placeholder : Text
placeholder =
    91 ∷ 229 ∷ 142 ∷ 134 ∷ 229 ∷ 143 ∷ 178 ∷ 230 ∷ 182 ∷ 136 ∷ 230 ∷ 129 ∷ 175 ∷ 232 ∷ 191 ∷ 135
    ∷ 233 ∷ 149 ∷ 191 ∷ 239 ∷ 188 ∷ 140 ∷ 230 ∷ 154 ∷ 130 ∷ 230 ∷ 151 ∷ 160 ∷ 230 ∷ 179 ∷ 149 ∷ 230
    ∷ 152 ∷ 190 ∷ 231 ∷ 164 ∷ 186 ∷ 239 ∷ 188 ∷ 155 ∷ 229 ∷ 142 ∷ 159 ∷ 230 ∷ 150 ∷ 135 ∷ 228 ∷ 191
    ∷ 157 ∷ 231 ∷ 149 ∷ 153 ∷ 229 ∷ 156 ∷ 168 ∷ 230 ∷ 156 ∷ 141 ∷ 229 ∷ 138 ∷ 161 ∷ 229 ∷ 153 ∷ 168
    ∷ 93 ∷ []

-- jsoncpp: the lengths of the prints of a message and of a reply.
pub record HistoryJson : Type 0 where
  pub row_size : Row → ℕ
  pub size : Page HistoryItem → ℕ

-- `LEFT JOIN message_delete_event d ON d.message_id=m.message_id AND d.owner_uid=?`
abbrev pub is_deleted_for : ℤ → Message → Db → Bool
is_deleted_for actor m db =
    is_some (first (λ e. (e.message_id == m.message_id) && int_eq e.owner_uid actor) db.events)

-- A message that the user has deleted has status 3 and no content.
unfoldable pub history_row : ℤ → Db → Message → Row
unfolding row
history_row actor db m =
    if is_deleted_for actor m db
    then record (row m db) { content = []; message_status = 3 }
    else row m db

-- `JOIN private_chat p ON p.thread_id=m.thread_id WHERE p.user1_uid=? AND p.user2_uid=?`
abbrev pub is_between : ℤ → ℤ → ℕ → PrivateChat → Bool
is_between a b thread p =
    (p.thread_id == thread)
    && (int_eq p.user1_uid (int_min a b) && int_eq p.user2_uid (int_max a b))

abbrev pub history_cursor : HistoryItem → ℕ
history_cursor item = item.row.seq

abbrev pub row_seq : Row → ℕ
row_seq r = r.seq

-- `AND m.seq>? ORDER BY m.seq ASC LIMIT 21`
unfoldable pub history_rows : ℤ → ℤ → ℕ → Db → List Row
unfolding history_row sort_by
history_rows actor peer after db = take 21 (
    sort_by row_seq (
      map (history_row actor db) (
        keep
          (λ m.
            is_some (first (is_between actor peer m.thread_id) db.private_chats) && ltb after m.seq)
          db.messages)))

-- A message that is too long gets the placeholder.
unfoldable pub shorten : (Row → ℕ) → Row → HistoryItem
shorten row_size m =
    if ltb 1250 (row_size m)
    then record { row = record m { content = placeholder }; content_truncated = true }
    else record { row = m; content_truncated = false }

-- The loop over the rows: a first message that does not fit is an error.
unfoldable pub gather_history :
    (Page HistoryItem → ℕ) → List HistoryItem → Page HistoryItem → Paged HistoryItem
unfolding with_item
gather_history size [] r = record { error = 0; page = some r }
gather_history size (item ∷ rest) r =
    let candidate = with_item history_cursor 1450 size r item in
    let more = gather_history size rest candidate in
    if leb 20 (length r.items) || ltb 1450 (size candidate)
    then (if is_empty r.items
        then no_page chat_data_invalid
        else record { error = 0; page = some (record r { has_more = true }) })
    else more

abbrev pub history_page : HistoryJson → ℕ → List Row → Paged HistoryItem
history_page json after rows =
    gather_history json.size (map (shorten json.row_size) rows) (first_page after)

-- `ChatHistory`
unfoldable pub chat_history : Env → HistoryJson → ℤ → ℤ → ℕ → Conn → Paged HistoryItem × Conn
unfolding history_rows gather_history shorten
chat_history env json actor peer after c =
    catching
      (with_lease env
        (do rows ← query env (history_rows actor peer after); pure (history_page json after rows)))
      (no_page chat_database_failed) c
