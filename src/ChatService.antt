-- ===== src/ChatService.antt =====
-- ChatServer/src/ChatServiceImpl.cpp: what another chat server asks this one to tell its users. The
-- notifications end in sessions of Registry.antt; whether the caller has the certificate of a chat
-- server is given. A status other than OK is `none`.
pub mod Sent
mod Tests
use sakura_chat_server.Prelude.{
  ℕ, Text, text_eq, ℤ, is_positive, int_eq, Bool, true, false, not, ◌||◌, Option, none, some, List,
  [], ◌∷◌, ltb, ◌==◌, if◌then◌else◌,
}
use sakura_chat_server.Wire.{body_limit, valid_text}
use sakura_chat_server.Persistence.{
  chat_not_friend, chat_data_invalid, chat_database_failed, Row, Saved,
}
use sakura_chat_server.Persistence.Store.{stored_text}
use sakura_chat_server.Persistence.Privacy.{message, request_policy, privacy_allows}
use sakura_chat_server.Accounts.Friends.{friend_exists}
use sakura_chat_server.Logic.Handlers.{
  Parts, Run, ◌>>=◌, give, on_conn, Profile, redact_profile, session_of,
}
use sakura_chat_server.Logic.Applies.{
  ApplicationNotice, ResolutionNotice, AddFriendReq, AuthFriendReq,
}

abbrev pub chat_target_offline : ℕ
chat_target_offline = 1102

-- A message for a session of this server.
pub data Pushed : Type 0 where
  pushes_application : Text → ApplicationNotice → Pushed
  pushes_resolution : Text → ResolutionNotice → Pushed
  pushes_text : Text → Row → Pushed

-- `AddFriendRsp`, `AuthFriendRsp` and `TextChatMsgRsp`
pub record PeerReply : Type 0 where
  pub error : ℕ
  pub from_uid : ℤ
  pub to_uid : ℤ

-- What a call does: the messages that it sends, and its reply.
pub record Served : Type 0 where
  pub pushed : List Pushed
  pub reply : Option PeerReply

abbrev pub denied : Served
denied = record { pushed = []; reply = none }

abbrev pub silent : PeerReply → Served
silent r = record { pushed = []; reply = some r }

-- A text of `TextChatMsgReq`, and the request.
pub record PeerText : Type 0 where
  pub msgid : Text
  pub msgcontent : Text

pub record TextChatMsgReq : Type 0 where
  pub fromuid : ℤ
  pub touid : ℤ
  pub textmsgs : List PeerText

abbrev pub profile_in : AddFriendReq → Profile
profile_in q = record { nick = q.nick; icon = q.icon; gender = q.gender; desc = some q.desc }

abbrev pub resolution_to : AuthFriendReq → PeerReply → Option Text → Served
resolution_to q r none = silent r
resolution_to q r (some session) = record {
  pushed =
      pushes_resolution session
        (record { apply_id = q.apply_id; agree = q.agree; peer_uid = q.fromuid })
      ∷ [];
  reply = some r;
}

abbrev pub text_reply : TextChatMsgReq → ℕ → PeerReply
text_reply q code = record { error = code; from_uid = q.fromuid; to_uid = q.touid }

-- The message that is stored must be the one of the request, and fit into a frame.
abbrev pub push_stored : (Row → ℕ) → TextChatMsgReq → PeerText → Text → Option Row → Served
push_stored size q t session none = silent (text_reply q chat_database_failed)
push_stored size q t session (some m) =
    if not (int_eq m.touid q.touid) || not (text_eq m.content t.msgcontent)
    then silent (text_reply q chat_database_failed)
    else if ltb body_limit (size m)
    then silent (text_reply q chat_data_invalid)
    else record { pushed = pushes_text session m ∷ []; reply = some (text_reply q 0) }

abbrev pub push_saved : (Row → ℕ) → TextChatMsgReq → PeerText → Text → Saved → Served
push_saved size q t session saved =
    if not (saved.error == 0)
    then silent (text_reply q chat_database_failed)
    else push_stored size q t session saved.message

module _ {S : Type 0} (g : Parts S) where
  open g use {env}

  -- The notification of a request, to whom takes requests of this user.
  unfoldable pub push_application : AddFriendReq → PeerReply → Text → Bool → Run S Served
  unfolding ◌>>=◌ redact_profile
  push_application q r session false = give (silent r)
  push_application q r session true = do
    shown ← on_conn (redact_profile env (profile_in q) q.applyuid q.touid)
    give (record {
      pushed =
          pushes_application session (record {
            apply_id = q.apply_id;
            applyuid = q.applyuid;
            name = q.name;
            profile = shown;
            message = q.desc;
          })
          ∷ [];
      reply = some r;
    })

  unfoldable pub add_friend_to : AddFriendReq → PeerReply → Option Text → Run S Served
  unfolding ◌>>=◌ privacy_allows push_application
  add_friend_to q r none = give (silent r)
  add_friend_to q r (some session) = do
    takes ← on_conn (privacy_allows env q.touid q.applyuid request_policy)
    push_application q r session takes

  -- `NotifyAddFriend`
  unfoldable pub notify_add_friend : Bool → AddFriendReq → Run S Served
  unfolding ◌>>=◌ session_of add_friend_to
  notify_add_friend false q = give denied
  notify_add_friend true q = do
    session ← session_of g q.touid
    add_friend_to q (record { error = 0; from_uid = q.applyuid; to_uid = q.touid }) session

  -- `NotifyAuthFriend`
  unfoldable pub notify_auth_friend : Bool → AuthFriendReq → Run S Served
  unfolding ◌>>=◌ session_of
  notify_auth_friend false q = give denied
  notify_auth_friend true q = do
    session ← session_of g q.touid
    give (resolution_to q (record { error = 0; from_uid = q.fromuid; to_uid = q.touid }) session)

  unfoldable pub text_to : (Row → ℕ) → TextChatMsgReq → PeerText → Option Text → Run S Served
  unfolding ◌>>=◌ stored_text
  text_to size q t none = give (silent (text_reply q chat_target_offline))
  text_to size q t (some session) = do
    saved ← on_conn (stored_text env q.fromuid t.msgid)
    give (push_saved size q t session saved)

  unfoldable pub text_of_friend : (Row → ℕ) → TextChatMsgReq → PeerText → Bool → Run S Served
  unfolding ◌>>=◌ session_of text_to
  text_of_friend size q t false = give (silent (text_reply q chat_not_friend))
  text_of_friend size q t true = do session ← session_of g q.touid; text_to size q t session

  unfoldable pub text_allowed : (Row → ℕ) → TextChatMsgReq → PeerText → Bool → Run S Served
  unfolding ◌>>=◌ valid_text friend_exists text_of_friend
  text_allowed size q t false = give (silent (text_reply q chat_data_invalid))
  text_allowed size q t true =
      if not (valid_text t.msgid t.msgcontent)
      then give (silent (text_reply q chat_data_invalid))
      else (do
        friend ← on_conn (friend_exists env q.fromuid q.touid)
        text_of_friend size q t friend)

  unfoldable pub deliver_text : (Row → ℕ) → TextChatMsgReq → PeerText → Run S Served
  unfolding ◌>>=◌ privacy_allows text_allowed
  deliver_text size q t =
      if not (is_positive q.fromuid) || (not (is_positive q.touid) || int_eq q.fromuid q.touid)
      then give (silent (text_reply q chat_data_invalid))
      else (do
        allowed ← on_conn (privacy_allows env q.touid q.fromuid message)
        text_allowed size q t allowed)

  unfoldable pub deliver_texts : (Row → ℕ) → TextChatMsgReq → List PeerText → Run S Served
  unfolding deliver_text
  deliver_texts size q (t ∷ []) = deliver_text size q t
  deliver_texts size q ts = give (silent (text_reply q chat_data_invalid))

  -- `NotifyTextChatMsg`, with the length of jsoncpp's print of a notification
  unfoldable pub notify_text_chat_msg : (Row → ℕ) → Bool → TextChatMsgReq → Run S Served
  unfolding deliver_texts
  notify_text_chat_msg size false q = give denied
  notify_text_chat_msg size true q = deliver_texts size q q.textmsgs
