-- ===== src/Logic/Handlers.antt =====
-- What the handlers of ChatServer/src/LogicSystem.cpp share: the state that they work on, the
-- profiles that they show and whom they hide them from, and where a user is to be found.
pub mod Quiet
pub mod Tests
use sakura_chat_server.Prelude.{
  ℕ, ◌+◌, Text, ascii, text_eq, ℤ, Bool, true, false, Option, none, some, List, [], ◌∷◌, ◌++◌,
  if◌then◌else◌,
}
use sakura_chat_server.Database.Sql.{Env, Conn}
use sakura_chat_server.Redis.{Server, World, get}
use sakura_chat_server.Registry.{Registry, find_user, get_session}
use sakura_chat_server.Status.{token_key}
use sakura_chat_server.Persistence.Privacy.{profile_policy, privacy_allows}

-- The Redis server and its connections, the connection to the database, and the sessions.
pub record ChatState (S : Type 0) : Type 0 where
  pub redis : World S
  pub conn : Conn
  pub registry : Registry

-- What the handlers work with: the commands of Redis, what the program does not decide of the
-- database, `PasswordSecurity::Digest`, `std::to_string` and the name of this server.
pub record Parts (S : Type 0) : Type 0 where
  pub server : Server S
  pub env : Env
  pub digest : Text → Text
  pub to_string : ℤ → Text
  pub self_name : Text

-- Code that changes the state.
abbrev pub Run : Type 0 → Type 0 → Type 0
Run S A = ChatState S → A × ChatState S

infixl 5 ◌>>=◌ ◌>>◌
unfoldable pub ◌>>=◌ : {S A B : Type 0} → Run S A → (A → Run S B) → Run S B
◌>>=◌ m f s = let (a, s') = m s in f a s'

abbrev pub ◌>>◌ : {S A B : Type 0} → Run S A → Run S B → Run S B
m >> k = m >>= λ _. k

abbrev pub give : {S A : Type 0} → A → Run S A
give a s = (a, s)

abbrev pub on_redis : {S A : Type 0} → (World S → A × World S) → Run S A
on_redis f s = let (a, w) = f s.redis in (a, record s { redis = w })

abbrev pub on_conn : {S A : Type 0} → (Conn → A × Conn) → Run S A
on_conn f s = let (a, c) = f s.conn in (a, record s { conn = c })

abbrev pub on_registry : {S A : Type 0} → (Registry → A × Registry) → Run S A
on_registry f s = let (a, r) = f s.registry in (a, record s { registry = r })

-- The members of a JSON object that say who a user is, of which some objects have no `desc`.
pub record Profile : Type 0 where
  pub nick : Text
  pub icon : Text
  pub gender : ℕ
  pub desc : Option Text

abbrev pub blank : Option Text → Option Text
blank none = none
blank (some t) = some []

abbrev pub hidden : Profile → Profile
hidden p = record { nick = []; icon = []; gender = 0; desc = blank p.desc }

-- `redactProfile`
unfoldable pub redact_profile : Env → Profile → ℤ → ℤ → Conn → Profile × Conn
unfolding privacy_allows
redact_profile env p owner actor c =
    let (shown, c') = privacy_allows env owner actor profile_policy c in
    ((if shown then p else hidden p), c')

-- `"_uip" + std::to_string(uid)`
abbrev pub ip_key : (ℤ → Text) → ℤ → Text
ip_key to_string uid = ascii "_uip" ++ to_string uid

-- What a handler did: the messages that it sent to other sessions and servers, then its reply, and
-- whether the session is closed in the end.
pub record Handled (N R : Type 0) : Type 0 where
  pub notices : List N
  pub reply : Option R
  pub closes : Bool

abbrev pub replied : {N R : Type 0} → R → Handled N R
replied r = record { notices = []; reply = some r; closes = false }

-- What jsoncpp makes of a body: it throws, on a value of another kind; the request is not there or not
-- of the types that are asked for; or it is.
pub data Reading (A : Type 0) : Type 0 where
  throws : Reading A
  unfit : Reading A
  fits : A → Reading A

-- A handler that throws: a `Defer` sends its reply, and `DealMsg` closes the session.
abbrev pub thrown : {N R : Type 0} → R → Handled N R
thrown r = record { notices = []; reply = some r; closes = true }

abbrev pub only_closes : {N R : Type 0} → Handled N R
only_closes = record { notices = []; reply = none; closes = true }

-- Where a notification goes: to a session of this server, to another server, or nowhere.
pub data Target : Type 0 where
  nowhere : Target
  to_session : Text → Target
  to_server : Text → Target

abbrev pub target_of : Option Text → Target
target_of none = nowhere
target_of (some s) = to_session s

module _ {S : Type 0} (g : Parts S) where
  open g use {server, to_string, self_name}

  -- `UserMgr::GetSession`, which asks Redis only about a user that it has a session of.
  unfoldable pub session_of : ℤ → Run S (Option Text)
  unfolding ◌>>=◌ find_user get get_session
  session_of uid s = elim (find_user uid s.registry.users) [
    | none ↦ (none, s)
    | some t ↦
        ◌>>=◌ (on_redis (get server (token_key to_string uid)))
          (λ token. on_registry (get_session uid token)) s
  ]

  unfoldable pub target_on : ℤ → Option Text → Run S Target
  unfolding ◌>>=◌ session_of
  target_on uid none = give nowhere
  target_on uid (some name) =
      if text_eq name self_name
      then (do t ← session_of uid; give (target_of t))
      else give (to_server name)

  -- The route of a user.
  unfoldable pub find_target : ℤ → Run S Target
  unfolding ◌>>=◌ get target_on
  find_target uid = do name ← on_redis (get server (ip_key to_string uid)); target_on uid name
