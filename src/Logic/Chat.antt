-- ===== src/Logic/Chat.antt =====
-- `LogicSystem::DealChatTextMsg` (ChatServer/src/LogicSystem.cpp): a text message is checked, stored,
-- answered, and then told to its receiver.
pub mod Answers
use sakura_chat_server.Prelude.{
  ℕ, Text, text_eq, ℤ, pos, int_eq, is_positive, Bool, true, false, not, ◌&&◌, ◌||◌, Option, none,
  some, List, [], ◌∷◌, length, ltb, ◌==◌, if◌then◌else◌,
}
use sakura_chat_server.Wire.{body_limit, uuid, valid_text}
use sakura_chat_server.Database.Sql.{Env, Conn}
use sakura_chat_server.Persistence.{chat_data_invalid, Row, Saved}
use sakura_chat_server.Persistence.Store.{store_text_message}

-- An element of `text_array`, and a request, as far as jsoncpp finds the types that the source asks for.
pub record Item : Type 0 where
  pub msgid : Text
  pub content : Text

pub record Request : Type 0 where
  pub touid : ℤ
  pub text_array : List (Option Item)

-- jsoncpp: the request in a body, if `touid` is an int and `text_array` an array, and the length of a
-- content once it is encoded.
pub record Json : Type 0 where
  pub parse : Text → Option Request
  pub encoded_length : Text → ℕ

-- What Redis, the configuration and the registry say about a receiver: the server that it is on, this
-- server's name, and its session on this server.
pub record Routes : Type 0 where
  pub server_of : ℤ → Option Text
  pub self : Text
  pub session_of : ℤ → Option Text

-- The response: an error with the ids that were read, or the stored message without its content.
pub record Response : Type 0 where
  pub error : ℕ
  pub fromuid : ℤ
  pub touid : ℤ
  pub msgid : Text
  pub message : Option Row

-- `reply()`; `Send` to a session of this server; the call of another server.
pub data Effect : Type 0 where
  replies : Response → Effect
  sends : Text → Row → Effect
  forwards : Text → ℤ → Row → Effect

abbrev pub refusal : ℤ → ℤ → Text → ℕ → Response
refusal from to id code = record {
  error = code;
  fromuid = from;
  touid = to;
  msgid = id;
  message = none;
}

-- What follows the answer: nothing if the receiver is nowhere.
unfoldable pub notify_session : Option Text → Row → List Effect
notify_session none m = []
notify_session (some s) m = sends s m ∷ []

unfoldable pub notify_server : Routes → ℤ → Row → Option Text → List Effect
unfolding notify_session
notify_server routes to m none = []
notify_server routes to m (some server) =
    if text_eq server routes.self
    then notify_session (routes.session_of to) m
    else forwards server to m ∷ []

unfoldable pub notify_receiver : Routes → ℤ → Row → List Effect
unfolding notify_server
notify_receiver routes to m = notify_server routes to m (routes.server_of to)

-- What is made of what `StoreTextMessage` answers.
unfoldable pub after_saved : Routes → ℤ → ℤ → Text → Saved → List Effect
unfolding notify_receiver
after_saved routes from to id saved =
    if not (saved.error == 0)
    then replies (refusal from to id saved.error) ∷ []
    else elim saved.message [
      | none ↦ replies (refusal from to id 0) ∷ []
      | some m ↦
          replies (record {
            error = 0;
            fromuid = m.fromuid;
            touid = m.touid;
            msgid = m.msgid;
            message = some (record m { content = [] });
          })
          ∷ notify_receiver routes to m
    ]

abbrev pub shown_id : Text → Text
shown_id id = if uuid id then id else []

-- The checks on the one item, and the storing.
unfoldable pub deal_item : Env → Json → Routes → ℤ → ℤ → Option Item → Conn → List Effect × Conn
unfolding store_text_message after_saved
deal_item env json routes from to none c =
    (replies (refusal from (pos 0) [] chat_data_invalid) ∷ [], c)
deal_item env json routes from to (some i) c =
    if (not (is_positive to) || int_eq to from)
      || (not (valid_text i.msgid i.content) || ltb 850 (json.encoded_length i.content))
    then (replies (refusal from to (shown_id i.msgid) chat_data_invalid) ∷ [], c)
    else let (saved, c') = store_text_message env from to i.msgid i.content c in
      (after_saved routes from to (shown_id i.msgid) saved, c')

unfoldable pub deal_items :
    Env → Json → Routes → ℤ → ℤ → List (Option Item) → Conn → List Effect × Conn
unfolding deal_item
deal_items env json routes from to (i ∷ []) c = deal_item env json routes from to i c
deal_items env json routes from to items c =
    (replies (refusal from (pos 0) [] chat_data_invalid) ∷ [], c)

unfoldable pub deal_request : Env → Json → Routes → ℤ → Option Request → Conn → List Effect × Conn
unfolding deal_items
deal_request env json routes from none c =
    (replies (refusal from (pos 0) [] chat_data_invalid) ∷ [], c)
deal_request env json routes from (some r) c =
    deal_items env json routes from r.touid r.text_array c

-- `DealChatTextMsg`
unfoldable pub deal_chat_text_msg : Env → Json → Routes → ℤ → Text → Conn → List Effect × Conn
unfolding deal_request
deal_chat_text_msg env json routes from body c =
    if not (is_positive from) || ltb body_limit (length body)
    then (replies (refusal from (pos 0) [] chat_data_invalid) ∷ [], c)
    else deal_request env json routes from (json.parse body) c
