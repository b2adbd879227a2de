-- ===== src/Persistence/Privacy.antt =====
-- `MysqlDao::PrivacyAllows` and `PrivacyCommand` (Common/src/ChatPersistence.cpp): what a user lets
-- another do.
pub mod Sound
pub mod Reads
pub mod Command
pub mod Sane
pub mod Tests
use sakura_chat_server.Prelude.{
  ℕ, ℤ, Bool, true, false, not, ◌&&◌, ◌||◌, Option, none, some, first, int_eq, is_positive, ◌==◌,
  if◌then◌else◌,
}
use sakura_chat_server.Database.{Privacy, Db, is_some, blocked_between, is_friend}
use sakura_chat_server.Database.Sql.{
  Env, Conn, Sql, ◌>>=◌, ◌>>◌, stop_if, pure, query, with_lease, catching,
}

-- The strings that the source compares the action with.
pub data Action : Type 0 where
  message search_policy request_policy profile_policy read_receipts unknown : Action

abbrev pub is_message : Action → Bool
is_message message = true
is_message a = false

abbrev pub is_read_receipts : Action → Bool
is_read_receipts read_receipts = true
is_read_receipts a = false

abbrev pub is_unknown : Action → Bool
is_unknown unknown = true
is_unknown a = false

-- The column that the action names, and the policy of a user who set none.
abbrev pub column : Action → Privacy → ℕ
column search_policy r = r.search_policy
column request_policy r = r.request_policy
column profile_policy r = r.profile_policy
column a r = r.read_receipts

abbrev pub default_policy : Action → ℕ
default_policy profile_policy = 1
default_policy read_receipts = 1
default_policy a = 0

abbrev pub policy_or : ℕ → Action → Option Privacy → ℕ
policy_or n a none = n
policy_or n a (some r) = column a r

-- `SELECT <action> AS policy FROM user_privacy WHERE uid=?`, or the default
unfoldable pub policy_of : ℤ → Action → Db → ℕ
policy_of owner action db =
    policy_or (default_policy action) action (first (λ r. int_eq r.uid owner) db.privacy)

-- The block between two users, which is only looked up for two.
unfoldable pub block_check : Env → ℤ → ℤ → Bool → Sql Bool Bool
block_check env owner actor true = pure false
block_check env owner actor false = query env (blocked_between owner actor)

-- What the policy decides; only the policy of friends asks the database again.
unfoldable pub by_policy : Env → ℤ → ℤ → Bool → ℕ → Sql Bool Bool
by_policy env owner actor true policy = pure (not (policy == 0))
by_policy env owner actor false policy = do
  stop_if (policy == 0) true
  stop_if (policy == 2) false
  query env (is_friend owner actor)

-- The `try` block.
unfoldable pub check_privacy : Env → ℤ → ℤ → Action → Sql Bool Bool
unfolding block_check policy_of by_policy
check_privacy env owner actor action = do
  blocked ← block_check env owner actor (int_eq owner actor)
  stop_if blocked false
  stop_if (is_message action || (int_eq owner actor && not (is_read_receipts action))) true
  stop_if (is_unknown action) false
  policy ← query env (policy_of owner action)
  by_policy env owner actor (is_read_receipts action) policy

-- `PrivacyAllows`
unfoldable pub privacy_allows : Env → ℤ → ℤ → Action → Conn → Bool × Conn
unfolding check_privacy
privacy_allows env owner actor action c =
    if not (is_positive owner) || not (is_positive actor)
    then (false, c)
    else catching (with_lease env (check_privacy env owner actor action)) false c
