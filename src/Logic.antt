-- ===== src/Logic.antt =====
-- ChatServer/src/LogicSystem.cpp: the queue of received messages and the worker that deals with them. The
-- handlers are in the files of Logic/.
pub mod Dispatch
pub mod Order
pub mod Chat
pub mod Handlers
pub mod Login
pub mod Search
pub mod Applies
pub mod FriendList
pub mod Sync
pub mod Tests
use sakura_chat_server.Prelude.{
  ℕ, Text, text_eq, ℤ, pos, int_eq, is_positive, Bool, true, false, not, ◌&&◌, ◌||◌, Option, none,
  some, List, [], ◌∷◌, ◌++◌, length, leb, ◌==◌, if◌then◌else◌,
}
use sakura_chat_server.Session.{Session}

-- `MAX_RECVQUE`
abbrev pub max_recvque : ℕ
max_recvque = 10000

-- `MSG_CHAT_LOGIN`, and the logout that has no name
abbrev pub msg_chat_login : ℕ
msg_chat_login = 1005

abbrev pub msg_logout : ℕ
msg_logout = 1042

-- `LogicNode`: the session, by its id, and the message
pub record Node : Type 0 where
  pub session : Text
  pub msg_id : ℕ
  pub body : Text

pub record Logic : Type 0 where
  pub b_stop : Bool
  pub msg_que : List Node

-- The keys of `_fun_callbacks` after `RegisterCallBacks`.
abbrev pub callbacks : List ℕ
callbacks =
    1042 ∷ 1040 ∷ 1020 ∷ 1022 ∷ 1024 ∷ 1026 ∷ 1044 ∷ 1046 ∷ 1005 ∷ 1007 ∷ 1009 ∷ 1012 ∷ 1018 ∷ 1015
    ∷ []

unfoldable pub is_in : ℕ → List ℕ → Bool
is_in id [] = false
is_in id (x ∷ xs) = (x == id) || is_in id xs

unfoldable pub is_registered : ℕ → Bool
unfolding is_in
is_registered id = is_in id callbacks

-- `PostMsgToQue`: whether the message is taken. One that is not closes its session.
unfoldable pub post_msg_to_que : Node → Logic → Bool × Logic
post_msg_to_que n l =
    if l.b_stop || leb max_recvque (length l.msg_que)
    then (false, l)
    else (true, record l { msg_que = l.msg_que ++ n ∷ [] })

-- What `DealMsg` does with a message: nothing, close the session, or call the handler.
pub data Decision : Type 0 where
  skips closes calls : Decision

-- The token that Redis has for the user must be that of the session.
abbrev pub token_matches : Option Text → Text → Bool
token_matches none digest = false
token_matches (some expected) digest = text_eq expected digest

unfoldable pub decide : Option Text → Session → ℕ → Decision
unfolding is_registered
decide token s id =
    if s.closed && not (id == msg_logout)
    then skips
    else let login = id == msg_chat_login in
      if not (is_registered id)
        || (if login then not (int_eq s.user_id (pos 0)) else not (is_positive s.user_id))
      then closes
      else if not login && not (token_matches token s.auth_digest)
      then closes
      else calls

-- One round of the loop of `DealMsg`.
unfoldable pub next_msg : Logic → Option (Node × Logic)
next_msg l = elim l.msg_que [ [] ↦ none | n ∷ rest ↦ some (n, record l { msg_que = rest }) ]
