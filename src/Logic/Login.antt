-- ===== src/Logic/Login.antt =====
-- `LogicSystem::LoginHandler` and `GetBaseInfo` (ChatServer/src/LogicSystem.cpp): a session gets a user
-- by the token that Redis has for that user.
pub mod Bound
pub mod Shown
use sakura_chat_server.Prelude.{
  ℕ, zero, suc, ◌+◌, ◌-◌, ◌*◌, Text, ascii, text_eq, ℤ, pos, negsuc, is_positive, Bool, true, false,
  not, ◌||◌, Option, none, some, List, [], ◌∷◌, ◌++◌, length, is_empty, leb, ltb, ◌==◌,
  if◌then◌else◌,
}
use sakura_chat_server.Redis.{get, set, h_get, h_set}
use sakura_chat_server.Registry.{Registry, set_user_session}
use sakura_chat_server.Status.{
  is_space, is_digit, int_max_value, token_key, uid_invalid, token_invalid,
}
use sakura_chat_server.Accounts.Users.{UserInfo, get_user}
use sakura_chat_server.Accounts.Friends.{PendingFriendApplyInfo, get_pending_friend_applies}
use sakura_chat_server.Logic.Handlers.{
  ChatState, Parts, Run, ◌>>=◌, ◌>>◌, give, on_redis, on_conn, on_registry, Profile, redact_profile,
  ip_key, Handled, replied, thrown, only_closes,
}

-- A request, as far as jsoncpp finds an object with an int `uid` and a string `token`.
pub record LoginRequest : Type 0 where
  pub uid : ℤ
  pub token : Text

-- What is written of a user to Redis, and into the response.
pub record Account : Type 0 where
  pub uid : ℤ
  pub name : Text
  pub email : Text
  pub nick : Text
  pub desc : Text
  pub gender : ℕ
  pub icon : Text

-- An element of `apply_list`.
pub record ApplyItem : Type 0 where
  pub apply_id : ℕ
  pub uid : ℤ
  pub name : Text
  pub message : Text
  pub status : ℕ
  pub profile : Profile

-- The response; `account` are the members that are written with `uid`, and `chat_protocol_version`.
pub record LoginResponse : Type 0 where
  pub error : ℕ
  pub account : Option Account
  pub apply_list : Option (List ApplyItem)

abbrev pub login_error : ℕ → LoginResponse
login_error code = record { error = code; account = none; apply_list = none }

abbrev pub Answer : Type 0
Answer = Handled (Unit {0}) LoginResponse

-- jsoncpp: the request in a body; the account in a text from Redis, `none` where `asInt` or `asString`
-- throws; and the text that is stored there.
pub record LoginJson : Type 0 where
  pub parse : Text → Option LoginRequest
  pub parse_account : Text → Option Account
  pub print_account : Account → Text

-- `std::stoi`: blanks, a sign, and digits up to the first other character; `none` where it throws.
unfoldable pub leading_value : ℕ → Text → ℕ
leading_value acc [] = acc
leading_value acc (c ∷ cs) =
    let rest = leading_value (acc * 10 + (c - b'0')) cs in if is_digit c then rest else acc

abbrev pub starts_number : Text → Bool
starts_number [] = false
starts_number (c ∷ cs) = is_digit c

abbrev pub negated : ℕ → ℤ
negated zero = pos 0
negated (suc n) = negsuc n

unfoldable pub stoi_digits : Bool → Text → Option ℤ
unfolding leading_value
stoi_digits negative t =
    let n = leading_value 0 t in
    if not (starts_number t)
    then none
    else if negative
    then (if ltb (int_max_value + 1) n then none else some (negated n))
    else if ltb int_max_value n
    then none
    else some (pos n)

unfoldable pub stoi : Text → Option ℤ
unfolding stoi_digits
stoi [] = none
stoi (c ∷ cs) =
    let rest = stoi cs in
    if is_space c
    then rest
    else if c == b'-'
    then stoi_digits true cs
    else if c == b'+'
    then stoi_digits false cs
    else stoi_digits false (c ∷ cs)

-- `count++`, which is undefined in C++ at INT_MAX; it is taken to wrap there.
abbrev pub raised : ℤ → ℤ
raised (pos n) = if n == int_max_value then negsuc int_max_value else pos (n + 1)
raised (negsuc zero) = pos 0
raised (negsuc (suc n)) = negsuc n

unfoldable pub login_count : Text → Option ℤ
unfolding stoi
login_count t = if is_empty t then some (pos 0) else stoi t

abbrev pub account_of : UserInfo → Account
account_of u = record {
  uid = u.uid;
  name = u.name;
  email = u.email;
  nick = u.nick;
  desc = u.desc;
  gender = u.gender;
  icon = u.icon;
}

-- How `GetBaseInfo` ends: an exception, no such user, or the user.
pub data BaseInfo : Type 0 where
  unreadable : BaseInfo
  unknown_user : BaseInfo
  base_info : Account → BaseInfo

abbrev pub cached_info : Option Account → BaseInfo
cached_info none = unreadable
cached_info (some a) = base_info a

-- `SetAuthDigest` and `SetUserId` of a session
unfoldable pub bind_session : Text → ℤ → Text → Registry → Unit {0} × Registry
bind_session session uid digest r = (
  tt,
  record r {
    heap = λ t.
        if text_eq t session
        then record (r.heap t) { user_id = uid; auth_digest = digest }
        else r.heap t;
  },
)

abbrev pub pending_profile : PendingFriendApplyInfo → Profile
pending_profile a = record { nick = a.nick; icon = a.icon; gender = a.gender; desc = none }

module _ {S : Type 0} (g : Parts S) (json : LoginJson) where
  open g use {server, env, to_string, self_name}
  open json use {parse, parse_account, print_account}

  unfoldable pub store_info : Text → Option UserInfo → Run S BaseInfo
  unfolding ◌>>=◌ set
  store_info key none = give unknown_user
  store_info key (some u) = do
    on_redis (set server key (print_account (account_of u)))
    give (base_info (account_of u))

  unfoldable pub base_of : Text → ℤ → Option Text → Run S BaseInfo
  unfolding ◌>>=◌ get_user store_info
  base_of key uid (some t) = give (cached_info (parse_account t))
  base_of key uid none = do user ← on_conn (get_user env uid); store_info key user

  -- `GetBaseInfo`
  unfoldable pub get_base_info : Text → ℤ → Run S BaseInfo
  unfolding ◌>>=◌ get base_of
  get_base_info key uid = do cached ← on_redis (get server key); base_of key uid cached

  -- The loop over the pending requests.
  unfoldable pub apply_items : ℤ → List PendingFriendApplyInfo → Run S (List ApplyItem)
  unfolding ◌>>=◌ redact_profile
  apply_items uid [] = give []
  apply_items uid (a ∷ rest) = do
    shown ← on_conn (redact_profile env (pending_profile a) a.uid uid)
    items ← apply_items uid rest
    give (
        record {
          apply_id = a.apply_id;
          uid = a.uid;
          name = a.name;
          message = a.descs;
          status = a.status;
          profile = shown;
        }
        ∷ items)

  -- From the writing of the count on; an exception of `std::stoi` leaves the response as it is.
  unfoldable pub enter : Text → ℤ → Text → Account → Option ℤ → Run S Answer
  unfolding ◌>>=◌ h_set bind_session set set_user_session get_pending_friend_applies apply_items
  enter session uid digest a none =
      give (thrown (record { error = 0; account = some a; apply_list = none }))
  enter session uid digest a (some count) = do
    on_redis (h_set server (ascii "_logincount") self_name (to_string (raised count)))
    on_registry (bind_session session uid digest)
    on_redis (set server (ip_key to_string uid) self_name)
    on_registry (λ r. (tt, set_user_session uid session r))
    applies ← on_conn (get_pending_friend_applies env uid (pos 0) (pos 200))
    items ← apply_items uid applies
    give (replied (record { error = 0; account = some a; apply_list = some items }))

  unfoldable pub greet : Text → ℤ → Text → BaseInfo → Run S Answer
  unfolding ◌>>=◌ h_get login_count enter
  greet session uid digest unreadable = give (thrown (login_error 0))
  greet session uid digest unknown_user = give (replied (login_error uid_invalid))
  greet session uid digest (base_info a) = do
    text ← on_redis (h_get server (ascii "_logincount") self_name)
    enter session uid digest a (login_count text)

  unfoldable pub judge_token : Text → LoginRequest → Option Text → Run S Answer
  unfolding ◌>>=◌ get_base_info greet
  judge_token session r none = give (replied (login_error uid_invalid))
  judge_token session r (some value) =
      if not (text_eq value (g.digest r.token))
      then give (replied (login_error token_invalid))
      else (do
        info ← get_base_info (ascii "_ubaseinfo" ++ to_string r.uid) r.uid
        greet session r.uid value info)

  unfoldable pub log_in_session : Text → Option LoginRequest → Run S Answer
  unfolding ◌>>=◌ get judge_token
  log_in_session session none = give only_closes
  log_in_session session (some r) =
      if not (is_positive r.uid) || (is_empty r.token || ltb 256 (length r.token))
      then give only_closes
      else (do
        value ← on_redis (get server (token_key to_string r.uid))
        judge_token session r value)

  -- `LoginHandler`
  unfoldable pub login_handler : Text → Text → Run S Answer
  unfolding log_in_session
  login_handler session body = log_in_session session (parse body)
