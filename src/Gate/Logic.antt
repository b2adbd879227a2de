-- ===== src/Gate/Logic.antt =====
-- GateServer/src/LogicSystem.cpp: the handlers of the gate's requests for a code, a registration, a new
-- password and a login. They use Redis (Redis.antt), the accounts (Accounts.antt) and two other
-- servers, whose replies are given. libsodium is taken to be initialised, and an exception comes
-- from nowhere else.
pub mod Authorised
pub mod Tests
use sakura_chat_server.Prelude.{
  ℕ, ◌+◌, ◌*◌, Text, ascii, text_eq, ℤ, pos, negsuc, is_positive, Bool, true, false, not, ◌&&◌,
  ◌||◌, Option, none, some, List, [], ◌∷◌, ◌++◌, length, all, is_empty, leb, ltb, ◌==◌,
  if◌then◌else◌,
}
use sakura_chat_server.Database.{is_some}
use sakura_chat_server.Database.Sql.{Env, Conn}
use sakura_chat_server.Passwords.{Sodium, contains, valid_password}
use sakura_chat_server.Redis.{Server, World, set_ex}
use sakura_chat_server.Redis.Scripts.{allow_request, consume_code}
use sakura_chat_server.Accounts.Users.{
  UserInfo, blank_user, reg_user_method, check_pwd, get_user_by_name, update_pwd,
}

-- The members of a request that the handlers look at; one that is no string is `none`.
pub record GateRequest : Type 0 where
  pub email : Option Text
  pub purpose : Option Text
  pub password : Option Text
  pub passwd : Option Text
  pub varifycode : Option Text
  pub username : Option Text
  pub user : Option Text
  pub confirm : Option Text

-- The texts of `message`.
pub data Notice : Type 0 where
  too_many wrong_password bad_password_or_code bad_code : Notice

-- The JSON that is sent; a missing member is `none`.
pub record GateResponse : Type 0 where
  pub error : ℕ
  pub message : Option Notice
  pub uid : Option ℤ
  pub email : Option Text
  pub token : Option Text
  pub host : Option Text
  pub port : Option Text

abbrev pub error_json : ℕ
error_json = 1001

abbrev pub rpc_failure : ℕ
rpc_failure = 1002

abbrev pub varify_code_err : ℕ
varify_code_err = 1004

abbrev pub user_exist : ℕ
user_exist = 1005

abbrev pub passwd_up_failed : ℕ
passwd_up_failed = 1008

abbrev pub passwd_invalid : ℕ
passwd_invalid = 1009

abbrev pub only_error : ℕ → GateResponse
only_error code = record {
  error = code;
  message = none;
  uid = none;
  email = none;
  token = none;
  host = none;
  port = none;
}

abbrev pub with_notice : ℕ → Notice → GateResponse
with_notice code notice = record (only_error code) { message = some notice }

-- `field`
unfoldable pub field : Option Text → ℕ → Bool
field none limit = false
field (some t) limit = not (is_empty t) && (leb (length t) limit && not (contains 0 t))

unfoldable pub text_of : Option Text → Text
text_of none = []
text_of (some t) = t

-- `email.find('@') != npos`, and only visible ASCII characters.
unfoldable pub valid_email : Text → Bool
valid_email email = contains b'@' email && all (λ c. ltb 32 c && ltb c 127) email

-- The four routes.
pub data Route : Type 0 where
  get_varifycode user_register reset_pwd user_login : Route

abbrev pub path_of : Route → Text
path_of get_varifycode = ascii "/get_varifycode"
path_of user_register = ascii "/user_register"
path_of reset_pwd = ascii "/reset_pwd"
path_of user_login = ascii "/user_login"

-- The reply of the status server.
pub record ServerFor : Type 0 where
  pub error : ℕ
  pub token : Text
  pub host : Text
  pub port : Text

-- The other servers: the error of `GetVarifyCode`, and the reply of `GetChatServer`.
pub record Peers : Type 0 where
  pub varify : Text → Text → ℕ
  pub chat_server : ℤ → ServerFor

-- The Redis server and its connections, the database connection, and the random draws so far.
pub record GateState (S : Type 0) : Type 0 where
  pub redis : World S
  pub sql : Conn
  pub draws : ℕ

unfoldable pub reply_login : Text → ℤ → ServerFor → GateResponse
reply_login email uid r = if not (r.error == 0) then only_error r.error else record (only_error 0) {
  uid = some uid;
  email = some email;
  token = some r.token;
  host = some r.host;
  port = some r.port;
}

-- What a registration is answered with.
unfoldable pub registered_reply : ℤ → GateResponse
registered_reply uid =
    if is_positive uid then record (only_error 0) { uid = some uid } else only_error user_exist

unfoldable pub update_reply : Bool → GateResponse
update_reply true = only_error 0
update_reply false = only_error passwd_up_failed

unfoldable pub code_key : Bool → Text → Text
code_key registering email =
    ascii "code_" ++ (if registering then ascii "register:" else ascii "reset:") ++ email

-- `!confirm.isString() || confirm != password`
unfoldable pub is_confirmed : Option Text → Text → Bool
is_confirmed none password = false
is_confirmed (some t) password = text_eq t password

-- What the handlers work with. `lower` is MySQL's LOWER, `to_string` prints an int, and `trouble` is an
-- error inside `reg_user`.
pub record Parts (S : Type 0) : Type 0 where
  pub server : Server S
  pub env : Env
  pub sodium : Sodium
  pub peers : Peers
  pub lower : Text → Text
  pub to_string : ℤ → Text
  pub trouble : Option ℕ

module _ {S : Type 0} (g : Parts S) where
  open g use {server, env, sodium, peers, lower, to_string, trouble}

  abbrev pub Handler : Type 0
  Handler = GateState S → GateResponse × GateState S

  unfoldable pub send_code : Text → Option Text → Handler
  unfolding field text_of
  send_code email purpose s =
      if not (field purpose 16)
      then (only_error error_json, s)
      else if not (text_eq (text_of purpose) (ascii "register"))
          && not (text_eq (text_of purpose) (ascii "reset"))
      then (only_error error_json, s)
      else (only_error (peers.varify email (text_of purpose)), s)

  unfoldable pub log_in_checked : Text → Bool × UserInfo → GateResponse
  unfolding reply_login
  log_in_checked email (false, info) = with_notice passwd_invalid wrong_password
  log_in_checked email (true, info) = reply_login email info.uid (peers.chat_server info.uid)

  unfoldable pub log_in : Text → Text → Handler
  unfolding log_in_checked check_pwd
  log_in email password s =
      let (checked, c) = check_pwd env sodium email password blank_user s.sql in
      (log_in_checked email checked, record s { sql = c })

  unfoldable pub register : Text → Text → Text → Handler
  unfolding registered_reply reg_user_method
  register name email password s =
      let (uid, c) = reg_user_method env sodium lower s.draws trouble name email password s.sql in
      (registered_reply uid, record s { sql = c; draws = s.draws + 1 })

  -- The sessions are ended before the password is changed.
  unfoldable pub end_sessions : Text → Text → UserInfo → Handler
  unfolding update_reply update_pwd set_ex
  end_sessions name password user s =
      let (ended, w) =
        set_ex server (ascii "_utoken" ++ to_string user.uid) (sodium.random_hex s.draws) (pos 1)
          to_string s.redis in
      let s1 : GateState S = record s { redis = w; draws = s.draws + 1 } in
      if not ended
      then (only_error rpc_failure, s1)
      else let (done, c) = update_pwd env sodium s1.draws name password s1.sql in
        (update_reply done, record s1 { sql = c; draws = s1.draws + 1 })

  unfoldable pub reset_of : Text → Text → Text → Option UserInfo → Handler
  unfolding end_sessions
  reset_of name email password none s = (only_error passwd_up_failed, s)
  reset_of name email password (some user) s =
      if not (text_eq user.email email)
      then (only_error passwd_up_failed, s)
      else end_sessions name password user s

  unfoldable pub reset : Text → Text → Text → Handler
  unfolding reset_of get_user_by_name
  reset name email password s =
      let (user, c) = get_user_by_name env name s.sql in
      reset_of name email password user (record s { sql = c })

  -- After the code is consumed.
  unfoldable pub change_account : Bool → Text → Text → Text → Handler
  unfolding register reset
  change_account true name email password s = register name email password s
  change_account false name email password s = reset name email password s

  unfoldable pub consume_then : Bool → Text → Text → Text → Text → Handler
  unfolding code_key consume_code change_account
  consume_then registering name email password code s =
      let (accepted, w) = consume_code server (code_key registering email) code s.redis in
      let s1 : GateState S = record s { redis = w } in
      if not accepted
      then (with_notice varify_code_err bad_code, s1)
      else change_account registering name email password s1

  unfoldable pub with_code : Bool → GateRequest → Text → Text → Handler
  unfolding consume_then is_confirmed field text_of valid_password
  with_code registering r email password s =
      let name = if registering then r.username else r.user in
      if not (valid_password password) || not (field r.varifycode 6)
      then (with_notice error_json bad_password_or_code, s)
      else if not (field name 64)
      then (only_error error_json, s)
      else if registering && not (is_confirmed r.confirm password)
      then (only_error error_json, s)
      else consume_then registering (text_of name) email password (text_of r.varifycode) s

  -- The routes that carry a password.
  unfoldable pub with_password : Route → GateRequest → Text → Option Text → Handler
  unfolding log_in with_code field text_of
  with_password route r email password s =
      if not (field password 128) then (only_error error_json, s) else elim route [
        | get_varifycode ↦ with_code false r email (text_of password) s
        | user_register ↦ with_code true r email (text_of password) s
        | reset_pwd ↦ with_code false r email (text_of password) s
        | user_login ↦ log_in email (text_of password) s
      ]

  unfoldable pub routed : Route → GateRequest → Text → Handler
  unfolding send_code with_password
  routed get_varifycode r email s = send_code email r.purpose s
  routed user_register r email s = with_password user_register r email r.password s
  routed reset_pwd r email s = with_password reset_pwd r email r.passwd s
  routed user_login r email s = with_password user_login r email r.passwd s

  -- The three limits, of which each is asked only when those before it allow the request.
  unfoldable pub within_limits : Route → Text → Text → World S → Bool × World S
  unfolding allow_request
  within_limits route remote email w =
      let (everyone, w1) = allow_request server (ascii "limit:gate:global") (pos 200) (pos 60) w in
      let (address, w2) =
        allow_request server (ascii "limit:gate:ip:" ++ remote) (pos 30) (pos 60) w1 in
      let account =
        allow_request server
          (ascii "limit:gate:" ++ path_of route ++ ascii ":" ++ sodium.generichash_hex email)
          (pos 5) (pos 60) w2 in
      if not everyone then (false, w1) else if not address then (false, w2) else account

  unfoldable pub limited_route : Route → GateRequest → Text → Text → Handler
  unfolding within_limits routed
  limited_route route r remote email s =
      let (allowed, w) = within_limits route remote email s.redis in
      let s1 : GateState S = record s { redis = w } in
      if not allowed then (with_notice rpc_failure too_many, s1) else routed route r email s1

  unfoldable pub parsed_post : Route → Text → Option GateRequest → Handler
  unfolding limited_route valid_email field text_of
  parsed_post route remote none s = (only_error error_json, s)
  parsed_post route remote (some r) s =
      if not (field r.email 254)
      then (only_error error_json, s)
      else if not (valid_email (text_of r.email)) || is_empty remote
      then (only_error error_json, s)
      else limited_route route r remote (text_of r.email) s

  -- A handler: jsoncpp's reading of the body is given, and the address of the client, which is empty
  -- when it is not known.
  unfoldable pub handle_account : (Text → Option GateRequest) → Route → Text → Text → Handler
  unfolding parsed_post
  handle_account parse route remote body s =
      if ltb (16 * 1024) (length body)
      then (only_error error_json, s)
      else parsed_post route remote (parse body) s

-- What a POST path is registered for.
pub data PostHandler : Type 0 where
  private_chat : PostHandler
  account : Route → PostHandler

-- `_post_handlers`
unfoldable pub post_handler : Text → Option PostHandler
post_handler path =
    if text_eq path (ascii "/private/v1")
    then some private_chat
    else if text_eq path (path_of get_varifycode)
    then some (account get_varifycode)
    else if text_eq path (path_of user_register)
    then some (account user_register)
    else if text_eq path (path_of reset_pwd)
    then some (account reset_pwd)
    else if text_eq path (path_of user_login)
    then some (account user_login)
    else none

-- `_get_handlers`
unfoldable pub has_get_handler : Text → Bool
has_get_handler path = text_eq path (ascii "/healthz")
