-- ===== src/Logic/Search.antt =====
-- `LogicSystem::SearchInfo` (ChatServer/src/LogicSystem.cpp): a user is searched by uid or by name.
pub mod Shown
use sakura_chat_server.Prelude.{
  ℕ, ◌+◌, Text, ℤ, pos, int_eq, Bool, true, false, not, ◌&&◌, ◌||◌, Option, none, some, List, [],
  ◌∷◌, length, all, is_empty, ltb, if◌then◌else◌,
}
use sakura_chat_server.Status.{is_digit, int_max_value, uid_invalid}
use sakura_chat_server.Persistence.Privacy.{search_policy, privacy_allows}
use sakura_chat_server.Accounts.Users.{UserInfo, get_user, get_user_by_name}
use sakura_chat_server.Accounts.Friends.{friend_exists}
use sakura_chat_server.Logic.Handlers.{
  Parts, Run, ◌>>=◌, give, on_conn, Profile, redact_profile, Handled, replied, thrown, Reading,
  throws, unfit, fits,
}
use sakura_chat_server.Logic.Login.{leading_value}

-- `Error_Json`
abbrev pub error_json : ℕ
error_json = 1001

-- The members that are written of a user who is found.
pub record FoundUser : Type 0 where
  pub uid : ℤ
  pub name : Text
  pub profile : Profile
  pub is_friend : Bool

-- The response, of which an exception sends what is there.
pub record SearchResponse : Type 0 where
  pub error : Option ℕ
  pub found : Option Bool
  pub user : Option FoundUser

abbrev pub search_error : ℕ → SearchResponse
search_error code = record { error = some code; found = none; user = none }

abbrev pub not_found : SearchResponse
not_found = record { error = some 0; found = some false; user = none }

abbrev pub Answer : Type 0
Answer = Handled (Unit {0}) SearchResponse

abbrev pub profile_of : UserInfo → Profile
profile_of u = record { nick = u.nick; icon = u.icon; gender = u.gender; desc = some u.desc }

module _ {S : Type 0} (g : Parts S) where
  open g use {env}

  -- What is shown of a user who may be found.
  unfoldable pub show_user : ℤ → UserInfo → Run S Answer
  unfolding ◌>>=◌ redact_profile friend_exists
  show_user actor u = do
    shown ← on_conn (redact_profile env (profile_of u) u.uid actor)
    friend ← if int_eq actor u.uid then give false else on_conn (friend_exists env actor u.uid)
    give (
        replied (record {
          error = some 0;
          found = some true;
          user = some (record { uid = u.uid; name = u.name; profile = shown; is_friend = friend });
        }))

  unfoldable pub show_found : ℤ → Option UserInfo → Run S Answer
  unfolding ◌>>=◌ privacy_allows show_user
  show_found actor none = give (replied not_found)
  show_found actor (some u) = do
    allowed ← on_conn (privacy_allows env u.uid actor search_policy)
    if allowed then show_user actor u else give (replied not_found)

  -- A keyword of digits is a uid, which must be an int.
  unfoldable pub search_keyword : ℤ → Text → Run S Answer
  unfolding ◌>>=◌ leading_value get_user get_user_by_name show_found
  search_keyword actor keyword =
      if all is_digit keyword
      then (if ltb int_max_value (leading_value 0 keyword)
          then give (replied (search_error uid_invalid))
          else (do
            user ← on_conn (get_user env (pos (leading_value 0 keyword)))
            show_found actor user))
      else (do user ← on_conn (get_user_by_name env keyword); show_found actor user)

  unfoldable pub search_for : ℤ → Reading Text → Run S Answer
  unfolding search_keyword
  search_for actor throws = give (thrown (record { error = none; found = none; user = none }))
  search_for actor unfit = give (replied (search_error error_json))
  search_for actor (fits keyword) =
      if is_empty keyword || ltb 64 (length keyword)
      then give (replied (search_error error_json))
      else search_keyword actor keyword

  -- `SearchInfo`, with jsoncpp's reading of the keyword in a body
  unfoldable pub search_info : (Text → Reading Text) → ℤ → Text → Run S Answer
  unfolding search_for
  search_info parse actor body = search_for actor (parse body)
