-- ===== src/Logic/FriendList.antt =====
-- `LogicSystem::GetFriendList` (ChatServer/src/LogicSystem.cpp): the friends of a user, in pages that
-- fit into a message.
pub mod Cut
pub mod Shown
use sakura_chat_server.Prelude.{
  ℕ, Text, ℤ, pos, is_positive, is_negative, Bool, true, false, not, ◌&&◌, ◌||◌, Option, none, some,
  List, [], ◌∷◌, ◌++◌, length, is_empty, ltb, ◌==◌, if◌then◌else◌,
}
use sakura_chat_server.Wire.{body_limit, uuid}
use sakura_chat_server.Persistence.{chat_data_invalid, chat_database_failed}
use sakura_chat_server.Accounts.Friends.{FriendInfo, FriendPageResult, get_friend_page}
use sakura_chat_server.Logic.Handlers.{Parts, Run, ◌>>=◌, give, on_conn, Profile, redact_profile}

-- A request, as far as jsoncpp finds an object with a string `request_id` and an int `after_uid`.
pub record FriendRequest : Type 0 where
  pub request_id : Text
  pub after_uid : ℤ

pub record FriendItem : Type 0 where
  pub uid : ℤ
  pub name : Text
  pub remark : Text
  pub profile : Profile

pub record FriendListResponse : Type 0 where
  pub error : ℕ
  pub request_id : Option Text
  pub after_uid : Option ℤ
  pub next_uid : Option ℤ
  pub friend_list : List FriendItem
  pub has_more : Bool

-- jsoncpp: the request in a body, and the length of the print of a response.
pub record FriendJson : Type 0 where
  pub parse : Text → Option FriendRequest
  pub size : FriendListResponse → ℕ

abbrev pub no_friends : FriendListResponse
no_friends = record {
  error = chat_data_invalid;
  request_id = none;
  after_uid = none;
  next_uid = none;
  friend_list = [];
  has_more = false;
}

abbrev pub friend_profile : FriendInfo → Profile
friend_profile f = record { nick = f.nick; icon = f.icon; gender = f.gender; desc = none }

-- `candidate`
unfoldable pub with_friend : FriendListResponse → FriendInfo → Profile → FriendListResponse
with_friend r f shown = record r {
  friend_list =
      r.friend_list
      ++ record { uid = f.uid; name = f.name; remark = f.remark; profile = shown } ∷ [];
  next_uid = some f.uid;
}

-- Where an item does not fit: the page ends, or is refused if it is the first.
abbrev pub cut_off : FriendListResponse → Bool → FriendListResponse × Bool
cut_off r more =
    if is_empty r.friend_list then (record r { error = chat_data_invalid }, more) else (r, true)

abbrev pub with_more : FriendListResponse × Bool → FriendListResponse
with_more (r, more) = record r { has_more = (r.error == 0) && more }

module _ {S : Type 0} (g : Parts S) (json : FriendJson) (uid : ℤ) where
  open g use {env}
  open json use {parse, size}

  -- The loop over the page, and whether there is more.
  unfoldable pub add_friends :
      List FriendInfo → Bool → FriendListResponse → Run S (FriendListResponse × Bool)
  unfolding ◌>>=◌ redact_profile with_friend
  add_friends [] more r = give (r, more)
  add_friends (f ∷ rest) more r = do
    shown ← on_conn (redact_profile env (friend_profile f) f.uid uid)
    (if ltb body_limit (size (with_friend r f shown))
        then give (cut_off r more)
        else add_friends rest more (with_friend r f shown))

  unfoldable pub list_page : FriendListResponse → FriendPageResult → Run S FriendListResponse
  unfolding ◌>>=◌ add_friends
  list_page r page = if not page.ok then give (record r { error = chat_database_failed }) else (do
    out ← add_friends page.items page.has_more (record r { error = 0 })
    give (with_more out))

  unfoldable pub list_after : FriendRequest → Run S FriendListResponse
  unfolding ◌>>=◌ get_friend_page list_page
  list_after q =
      let r = record no_friends {
        request_id = some q.request_id;
        after_uid = some q.after_uid;
        next_uid = some q.after_uid;
      } in
      if not (is_positive uid) || is_negative q.after_uid
      then give r
      else (do page ← on_conn (get_friend_page env uid q.after_uid (pos 10)); list_page r page)

  unfoldable pub list_request : Option FriendRequest → Run S FriendListResponse
  unfolding uuid list_after
  list_request none = give no_friends
  list_request (some q) = if not (uuid q.request_id) then give no_friends else list_after q

  -- `GetFriendList`: the response, which a `Defer` sends
  unfoldable pub get_friend_list : Text → Run S FriendListResponse
  unfolding list_request
  get_friend_list body =
      if ltb body_limit (length body) then give no_friends else list_request (parse body)
