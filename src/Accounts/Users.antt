-- ===== src/Accounts/Users.antt =====
-- `RegUser`, `CheckEmail`, `UpdatePwd`, `CheckPwd` and `GetUser` (Common/src/MysqlDao.cpp).
pub mod Kept
pub mod Unique
pub mod Login
use sakura_chat_server.Prelude.{
  ℕ, ◌+◌, Text, text_eq, ℤ, pos, negsuc, Bool, true, false, not, ◌&&◌, ◌||◌, Option, none, some,
  List, [], ◌∷◌, first, keep, map, length, ltb, int_eq, ◌==◌, if◌then◌else◌,
}
use sakura_chat_server.Database.{User, Db}
use sakura_chat_server.Database.Sql.{
  Env, Conn, Flow, value, returns, raises, Sql, ◌>>=◌, pure, statement, query,
}
use sakura_chat_server.Passwords.{Sodium, hash_password, verify_password}
use sakura_chat_server.Accounts.Procedures.{reg_user}

-- A method that takes a connection, gives it back at its end, and has no transaction of its own:
-- what it returns when it gets none, and what its `catch (sql::SQLException &)` returns. Its
-- statements throw nothing else.
unfoldable pub with_sql : {R : Type 0} → Env → R → R → Sql R R → Conn → R × Conn
with_sql env missing failed m c = elim (env.leases c.tick) [
  | false ↦ (missing, record c { tick = c.tick + 1 })
  | true ↦
      let (r, c') = m (record c { tick = c.tick + 1 }) in
      (elim r [ value a ↦ a | returns a ↦ a | raises e ↦ failed ], c')
]

-- `UserInfo` (Common/include/data.h)
pub record UserInfo : Type 0 where
  pub name : Text
  pub pwd : Text
  pub uid : ℤ
  pub email : Text
  pub nick : Text
  pub desc : Text
  pub gender : ℕ
  pub icon : Text
  pub back : Text

abbrev pub blank_user : UserInfo
blank_user = record {
  name = [];
  pwd = [];
  uid = pos 0;
  email = [];
  nick = [];
  desc = [];
  gender = 0;
  icon = [];
  back = [];
}

-- `CALL reg_user(?,?,?,@result)`, then `SELECT @result`
unfoldable pub call_reg_user : Env → (Text → Text) → Option ℕ → Text → Text → Text → Sql ℤ ℤ
unfolding reg_user
call_reg_user env lower trouble name email hash = do
  result ← statement env (reg_user env.same lower trouble name email hash)
  query env (λ db. result)

unfoldable pub register_hashed :
    Env → (Text → Text) → Option ℕ → Text → Text → Option Text → Conn → ℤ × Conn
unfolding call_reg_user with_sql
register_hashed env lower trouble name email none c = (negsuc 0, c)
register_hashed env lower trouble name email (some hash) c =
    with_sql env (pos 0) (negsuc 0) (call_reg_user env lower trouble name email hash) c

-- `RegUser`; the `false` that is returned without a connection is 0.
unfoldable pub reg_user_method :
    Env → Sodium → (Text → Text) → ℕ → Option ℕ → Text → Text → Text → Conn → ℤ × Conn
unfolding register_hashed
reg_user_method env sodium lower salt trouble name email pwd c =
    register_hashed env lower trouble name email (hash_password sodium salt pwd) c

abbrev pub has_email : Text → Option User → Bool
has_email email none = false
has_email email (some u) = text_eq email u.email

-- `CheckEmail`: the first row of the name decides.
unfoldable pub check_email : Env → Text → Text → Conn → Bool × Conn
unfolding with_sql
check_email env name email c =
    with_sql env false false
      (do
        row ← query env (λ db. first (λ u. env.same u.name name) db.users)
        pure (has_email email row))
      c

-- `UPDATE user SET pwd = ? WHERE name = ?`, with the number of rows
unfoldable pub set_pwd : (Text → Text → Bool) → Text → Text → Db → ℕ × Db
set_pwd same name hash db = (
  length (keep (λ u. same u.name name) db.users),
  record db { users = map (λ u. if same u.name name then record u { pwd = hash } else u) db.users },
)

unfoldable pub update_hashed : Env → Text → Option Text → Conn → Bool × Conn
unfolding set_pwd with_sql
update_hashed env name none c = (false, c)
update_hashed env name (some hash) c =
    with_sql env false false
      (do count ← statement env (set_pwd env.same name hash); pure (ltb 0 count)) c

-- `UpdatePwd`
unfoldable pub update_pwd : Env → Sodium → ℕ → Text → Text → Conn → Bool × Conn
unfolding update_hashed
update_pwd env sodium salt name newpwd c =
    update_hashed env name (hash_password sodium salt newpwd) c

-- What `CheckPwd` makes of the row: its result, and what it writes into its argument, which it does
-- also where the password is wrong.
unfoldable pub judge_pwd : Sodium → Text → Text → UserInfo → Option User → Bool × UserInfo
judge_pwd sodium email pwd info none = (false, info)
judge_pwd sodium email pwd info (some u) =
    (verify_password sodium u.pwd pwd, record info { name = u.name; email = email; uid = u.uid })

-- `WHERE email = ? AND status = 0`
unfoldable pub find_email : (Text → Text → Bool) → Text → List User → Option User
find_email same email = first (λ u. same u.email email && (u.status == 0))

-- `CheckPwd`
unfoldable pub check_pwd : Env → Sodium → Text → Text → UserInfo → Conn → (Bool × UserInfo) × Conn
unfolding with_sql judge_pwd find_email
check_pwd env sodium email pwd info c =
    with_sql env (false, info) (false, info)
      (do
        row ← query env (λ db. find_email env.same email db.users)
        pure (judge_pwd sodium email pwd info row))
      c

abbrev pub info_of : Option User → Option UserInfo
info_of none = none
info_of (some u) = some (record {
  name = u.name;
  pwd = [];
  uid = u.uid;
  email = u.email;
  nick = u.nick;
  desc = u.desc;
  gender = u.gender;
  icon = u.icon;
  back = [];
})

-- `GetUser` of a uid
unfoldable pub get_user : Env → ℤ → Conn → Option UserInfo × Conn
unfolding with_sql
get_user env uid c =
    with_sql env none none
      (do
        row ← query env (λ db. first (λ u. int_eq u.uid uid && (u.status == 0)) db.users)
        pure (info_of row))
      c

-- `GetUser` of a name
unfoldable pub get_user_by_name : Env → Text → Conn → Option UserInfo × Conn
unfolding with_sql
get_user_by_name env name c =
    with_sql env none none
      (do
        row ← query env (λ db. first (λ u. env.same u.name name && (u.status == 0)) db.users)
        pure (info_of row))
      c
