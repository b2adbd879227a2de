-- ===== src/Logic/Sync.antt =====
-- `LogicSystem::ChatSync` and the two handlers without a name, of a logout and of the privacy commands
-- (ChatServer/src/LogicSystem.cpp).
pub mod Numbers
pub mod Replies
use sakura_chat_server.Prelude.{
  ℕ, ◌+◌, ◌^◌, Text, ascii, text_eq, ℤ, is_positive, int_eq, Bool, true, false, not, ◌&&◌, ◌||◌,
  Option, none, some, List, [], ◌∷◌, length, all, is_empty, leb, ltb, ◌==◌, if◌then◌else◌,
}
use sakura_chat_server.Wire.{body_limit, uuid}
use sakura_chat_server.Database.Sql.{Env, Conn}
use sakura_chat_server.Redis.Scripts.{delete_if_equal}
use sakura_chat_server.Status.{is_digit, token_key}
use sakura_chat_server.Persistence.{chat_data_invalid}
use sakura_chat_server.Persistence.Deletion.{Deleted, delete_message}
use sakura_chat_server.Persistence.Receipts.{Recorded, States, record_receipt, message_states}
use sakura_chat_server.Persistence.Paging.{
  Page, Paged, EventItem, ConversationItem, deletion_events, chat_conversations,
}
use sakura_chat_server.Persistence.History.{HistoryItem, HistoryJson, chat_history}
use sakura_chat_server.Persistence.Privacy.Command.{PrivacyRequest, PrivacyReply, privacy_command}
use sakura_chat_server.Logic.Handlers.{
  Parts, Run, ◌>>=◌, ◌>>◌, give, on_conn, on_redis, Handled, only_closes, replied,
}
use sakura_chat_server.Logic.Login.{leading_value}

-- The members of a request; one that is not of the type that is asked for is `none`.
pub record SyncRequest : Type 0 where
  pub request_id : Option Text
  pub message_id : Option Text
  pub after_event : Option Text
  pub after_seq : Option Text
  pub after_thread : Option Text
  pub for_everyone : Option Bool
  pub peer_uid : Option ℤ
  pub receipt : Option Text
  pub msgids : Option (List (Option Text))

-- The response without its `request_id`: an error, or what a method of the database gives with the
-- members that are copied from the request.
pub data SyncResult : Type 0 where
  invalid : SyncResult
  of_delete : Deleted → SyncResult
  of_events : Paged EventItem → Text → SyncResult
  of_history : Paged HistoryItem → ℤ → Text → SyncResult
  of_conversations : Paged ConversationItem → Text → SyncResult
  of_receipt : Recorded → SyncResult
  of_states : States → SyncResult

pub record SyncResponse : Type 0 where
  pub result : SyncResult
  pub request_id : Option Text

-- jsoncpp: an object in a body, and the lengths of the prints.
pub record SyncJson : Type 0 where
  pub parse : Text → Option SyncRequest
  pub size : SyncResponse → ℕ
  pub event_size : Page EventItem → ℕ
  pub conversation_size : Page ConversationItem → ℕ
  pub history : HistoryJson

-- `number`: a text of at most 20 digits, of a `uint64_t`.
unfoldable pub number_text : Text → Option ℕ
unfolding leading_value
number_text t =
    if is_empty t || ltb 20 (length t)
    then none
    else if not (all is_digit t)
    then none
    else if leb (2 ^ 64) (leading_value 0 t)
    then none
    else some (leading_value 0 t)

-- The identifiers of `msgids`: every one a text of 1 to 64 bytes.
unfoldable pub message_ids : List (Option Text) → Option (List Text)
message_ids [] = some []
message_ids (none ∷ rest) = none
message_ids (some t ∷ rest) =
    let ids = message_ids rest in
    if is_empty t || ltb 64 (length t)
    then none
    else elim ids [ none ↦ none | some ts ↦ some (t ∷ ts) ]

-- `state != "delivered" && state != "read"`, and whether it is "read"
unfoldable pub receipt_state : Text → Option Bool
receipt_state t =
    if text_eq t (ascii "read")
    then some true
    else if text_eq t (ascii "delivered")
    then some false
    else none

-- The cursor of a request, which is copied into the response.
abbrev pub Cursor : Type 0
Cursor = Text × ℕ

unfoldable pub read_cursor : Option Text → Option Cursor
unfolding number_text
read_cursor none = none
read_cursor (some t) = elim (number_text t) [ none ↦ none | some n ↦ some (t, n) ]

module _ (env : Env) (json : SyncJson) (actor : ℤ) where
  open json use {parse, size, event_size, conversation_size, history}

  abbrev pub Synced : Type 0
  Synced = Conn → SyncResult × Conn

  unfoldable pub sync_delete : Option Cursor → Option Bool → Synced
  unfolding delete_message
  sync_delete none everyone c = (invalid, c)
  sync_delete (some (t, n)) none c = (invalid, c)
  sync_delete (some (t, n)) (some everyone) c =
      if n == 0
      then (invalid, c)
      else let (r, c') = delete_message env actor n everyone c in (of_delete r, c')

  unfoldable pub sync_events : Option Cursor → Synced
  unfolding deletion_events
  sync_events none c = (invalid, c)
  sync_events (some (t, n)) c =
      let (r, c') = deletion_events env event_size actor n c in (of_events r t, c')

  unfoldable pub sync_history : Option ℤ → Option Cursor → Synced
  unfolding chat_history
  sync_history none cursor c = (invalid, c)
  sync_history (some peer) none c = (invalid, c)
  sync_history (some peer) (some (t, n)) c =
      if not (is_positive peer) || int_eq peer actor
      then (invalid, c)
      else let (r, c') = chat_history env history actor peer n c in (of_history r peer t, c')

  unfoldable pub sync_conversations : Option Cursor → Synced
  unfolding chat_conversations
  sync_conversations none c = (invalid, c)
  sync_conversations (some (t, n)) c =
      let (r, c') = chat_conversations env conversation_size actor n c in (of_conversations r t, c')

  unfoldable pub sync_state : ℕ → Option Bool → Synced
  unfolding record_receipt
  sync_state id none c = (invalid, c)
  sync_state id (some is_read) c =
      let (r, c') = record_receipt env actor id is_read c in (of_receipt r, c')

  unfoldable pub sync_receipt : Option Cursor → Option Text → Synced
  unfolding receipt_state sync_state
  sync_receipt none receipt c = (invalid, c)
  sync_receipt (some (t, n)) none c = (invalid, c)
  sync_receipt (some (t, n)) (some state) c =
      if n == 0 then (invalid, c) else sync_state n (receipt_state state) c

  unfoldable pub sync_ids : Option (List Text) → Synced
  unfolding message_states
  sync_ids none c = (invalid, c)
  sync_ids (some ids) c = let (r, c') = message_states env actor ids c in (of_states r, c')

  unfoldable pub sync_states : Option (List (Option Text)) → Synced
  unfolding message_ids sync_ids
  sync_states none c = (invalid, c)
  sync_states (some ids) c =
      if is_empty ids || ltb 4 (length ids) then (invalid, c) else sync_ids (message_ids ids) c

  -- The dispatch over the ids of the messages.
  unfoldable pub sync_by_id : ℕ → SyncRequest → Synced
  unfolding read_cursor sync_delete sync_events sync_history sync_conversations sync_receipt
      sync_states
  sync_by_id id q c =
      if id == 1044
      then sync_delete (read_cursor q.message_id) q.for_everyone c
      else if id == 1046
      then sync_events (read_cursor q.after_event) c
      else if id == 1020
      then sync_history q.peer_uid (read_cursor q.after_seq) c
      else if id == 1026
      then sync_conversations (read_cursor q.after_thread) c
      else if id == 1022
      then sync_receipt (read_cursor q.message_id) q.receipt c
      else if id == 1024
      then sync_states q.msgids c
      else (invalid, c)

  -- A response that is too large is replaced by an error.
  unfoldable pub fitting : Text → SyncResult → SyncResponse
  fitting id r =
      let full : SyncResponse = record { result = r; request_id = some id } in
      if ltb body_limit (size full) then record { result = invalid; request_id = some id } else full

  abbrev pub no_request : SyncResponse
  no_request = record { result = invalid; request_id = none }

  unfoldable pub sync_identified : ℕ → SyncRequest → Option Text → Conn → SyncResponse × Conn
  unfolding uuid sync_by_id fitting
  sync_identified id q none c = (no_request, c)
  sync_identified id q (some request_id) c =
      if not (uuid request_id)
      then (no_request, c)
      else let (r, c') = sync_by_id id q c in (fitting request_id r, c')

  unfoldable pub sync_request : ℕ → Option SyncRequest → Conn → SyncResponse × Conn
  unfolding sync_identified
  sync_request id none c = (no_request, c)
  sync_request id (some q) c = sync_identified id q q.request_id c

  -- `ChatSync`: the id of the reply, and the reply
  unfoldable pub chat_sync : ℕ → Text → Conn → (ℕ × SyncResponse) × Conn
  unfolding sync_request
  chat_sync id body c =
      if not (is_positive actor) || ltb body_limit (length body)
      then ((id + 1, no_request), c)
      else let (r, c') = sync_request id (parse body) c in ((id + 1, r), c')

-- `_fun_callbacks[1040]`: a command with its `request_id`, or the end of the session.
pub record PrivacyAnswer : Type 0 where
  pub reply : PrivacyReply
  pub request_id : Text

module _ {S : Type 0} (g : Parts S) where
  unfoldable pub privacy_with :
      ℤ → Option (PrivacyRequest × Text) → Run S (Handled (Unit {0}) PrivacyAnswer)
  unfolding ◌>>=◌ privacy_command
  privacy_with actor none = give only_closes
  privacy_with actor (some (q, id)) = if ltb 64 (length id) then give only_closes else (do
    r ← on_conn (privacy_command g.env actor q)
    give (replied (record { reply = r; request_id = id })))

  unfoldable pub privacy_handler :
      (Text → Option (PrivacyRequest × Text)) → ℤ → Text → Run S (Handled (Unit {0}) PrivacyAnswer)
  unfolding privacy_with
  privacy_handler parse actor body = privacy_with actor (parse body)

  -- `_fun_callbacks[1042]`: the token is deleted if it is that of the session, which is closed.
  unfoldable pub logout_handler : ℤ → Text → Run S (Handled (Unit {0}) (Unit {0}))
  unfolding ◌>>=◌ delete_if_equal
  logout_handler uid digest = do
    on_redis (delete_if_equal g.server (token_key g.to_string uid) digest)
    give only_closes
