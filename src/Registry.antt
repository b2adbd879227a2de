-- ===== src/Registry.antt =====
-- ChatServer/src/UserMgr.cpp and ChatServer/src/CServer.cpp: which sessions a server holds, and which
-- of them a user has. A session is named by its id; the heap says what it holds.
pub mod Logins
pub mod Tests
use sakura_chat_server.Prelude.{
  ℕ, Text, text_eq, ℤ, int_eq, Bool, true, false, not, Option, none, some, List, [], ◌∷◌, ◌++◌,
  first, keep, length, leb, if◌then◌else◌,
}
use sakura_chat_server.Session.{Session, close}

-- `_uid_to_session` and `_sessions`, over the sessions that there are.
pub record Registry : Type 0 where
  pub heap : Text → Session
  pub users : List (ℤ × Text)
  pub sessions : List Text

unfoldable pub find_user : ℤ → List (ℤ × Text) → Option Text
find_user uid [] = none
find_user uid ((u, s) ∷ rest) = if int_eq u uid then some s else find_user uid rest

-- `_uid_to_session[uid] = session`
unfoldable pub put_user : ℤ → Text → List (ℤ × Text) → List (ℤ × Text)
put_user uid s [] = (uid, s) ∷ []
put_user uid s ((u, t) ∷ rest) =
    let others = put_user uid s rest in if int_eq u uid then (u, s) ∷ rest else (u, t) ∷ others

unfoldable pub erase_user : ℤ → List (ℤ × Text) → List (ℤ × Text)
erase_user uid [] = []
erase_user uid ((u, t) ∷ rest) =
    let others = erase_user uid rest in if int_eq u uid then rest else (u, t) ∷ others

-- `Close` of a session; what it dispatches to the strand runs later, as `clear_session`.
unfoldable pub close_session : Text → Registry → Registry
unfolding close
close_session s r = record r { heap = λ t. if text_eq t s then (close (r.heap s)).0 else r.heap t }

-- `UserMgr::GetSession`, with what Redis answers for the token of the user.
unfoldable pub check_token : Text → Option Text → Registry → Option Text × Registry
unfolding close_session
check_token s none r = (none, close_session s r)
check_token s (some digest) r =
    if text_eq digest (r.heap s).auth_digest then (some s, r) else (none, close_session s r)

unfoldable pub get_session : ℤ → Option Text → Registry → Option Text × Registry
unfolding find_user check_token
get_session uid token r = elim (find_user uid r.users) [
  | none ↦ (none, r)
  | some s ↦ check_token s token r
]

-- The session that a login replaces is closed, unless it is the same.
unfoldable pub close_previous : Option Text → Text → Registry → Registry
unfolding close_session
close_previous none s r = r
close_previous (some t) s r = if text_eq t s then r else close_session t r

-- `UserMgr::SetUserSession`
unfoldable pub set_user_session : ℤ → Text → Registry → Registry
unfolding find_user put_user close_previous
set_user_session uid s r =
    if (r.heap s).closed
    then r
    else close_previous (find_user uid r.users) s (record r { users = put_user uid s r.users })

-- `UserMgr::RmvUserSession`
unfoldable pub rmv_user_session : ℤ → Text → Registry → Registry
unfolding find_user erase_user
rmv_user_session uid s r = elim (find_user uid r.users) [
  | none ↦ r
  | some t ↦ if text_eq t s then record r { users = erase_user uid r.users } else r
]

abbrev pub holds : Text → List Text → Bool
holds s [] = false
holds s (t ∷ ts) = if text_eq t s then true else holds s ts

-- `CServer::ClearSession`
unfoldable pub clear_session : Text → Registry → Registry
unfolding rmv_user_session
clear_session s r =
    let r' = if holds s r.sessions then rmv_user_session (r.heap s).user_id s r else r in
    record r' { sessions = keep (λ t. not (text_eq t s)) r.sessions }

abbrev pub max_sessions : ℕ
max_sessions = 4096

-- `CServer::HandleAccept`: whether the session is started, and the server after it.
unfoldable pub handle_accept : Text → Bool → Registry → Bool × Registry
unfolding close_session
handle_accept s error r =
    if error
    then (false, r)
    else if leb max_sessions (length r.sessions)
    then (false, close_session s r)
    else (true, record r { sessions = if holds s r.sessions then r.sessions else s ∷ r.sessions })
