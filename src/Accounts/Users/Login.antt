-- ===== src/Accounts/Users/Login.antt =====
-- An account that `RegUser` made, and `CheckPwd` on it (Common/src/MysqlDao.cpp).
use sakura_chat_server.Prelude.{
  ℕ, suc, ◌+◌, ◌≡◌, refl, sym, ap, ◌∙◌, subst, Text, ℤ, pos, negsuc, is_empty, Bool, true, false,
  ◌||◌, Option, none, some, leb, ltb, ◌==◌, if◌then◌else◌,
}
use sakura_chat_server.Database.{Db}
use sakura_chat_server.Database.Sql.{Env, Conn, ◌>>=◌, pure, statement}
use sakura_chat_server.Database.Triple.{idle}
use sakura_chat_server.Passwords.{
  Sodium, Documented, hash_password, verify_password, verify_password-hash_password,
}
use sakura_chat_server.Accounts.Procedures.{
  trim, is_taken, insert_user, new_user, reg_user_trouble, reg_user,
}
use sakura_chat_server.Accounts.Users.{
  UserInfo, with_sql, call_reg_user, register_hashed, reg_user_method, judge_pwd, find_email,
  check_pwd,
}

new_user-inserted :
    (same : Text → Text → Bool) (name email pwd : Text) (db : Db) (u : ℕ)
    → (new_user same name email pwd db).0 ≡ pos (suc u)
    → (new_user same name email pwd db).1 ≡ insert_user (suc u) name email pwd db
unfolding new_user
new_user-inserted same name email pwd db u =
    go (is_taken same name email db.users)
      (ltb 2147483647 (db.last_uid + 1) || leb 2147483647 (db.last_uid + 1))
  where
    go :
        (t full : Bool)
        → let out : ℤ × Db =
            if t
            then (pos 0, db)
            else if full
            then (negsuc 0, db)
            else (pos (db.last_uid + 1), insert_user (db.last_uid + 1) name email pwd db) in
          out.0 ≡ pos (suc u) → out.1 ≡ insert_user (suc u) name email pwd db
    go true full h = absurd (cc)
    go false true h = absurd (cc)
    go false false h =
        let number : db.last_uid + 1 ≡ suc u = cc in
        ap (λ x. insert_user x name email pwd db) number

reg_user-inserted :
    (same : Text → Text → Bool) (lower : Text → Text) (trouble : Option ℕ) (name email pwd : Text)
    (db : Db) (u : ℕ)
    → (reg_user same lower trouble name email pwd db).0 ≡ pos (suc u)
    → (reg_user same lower trouble name email pwd db).1
      ≡ insert_user (suc u) (trim name) (lower (trim email)) pwd db
unfolding reg_user
reg_user-inserted same lower trouble name email pwd db u =
    go (is_empty (trim name) || (is_empty (trim email) || is_empty pwd)) trouble
  where
    trouble_number : (b : Bool) → ◌≡◌ {A = ℤ} (if b then pos 0 else negsuc 0) (pos (suc u)) → ⊥
    trouble_number true h = cc
    trouble_number false h = cc

    go :
        (b : Bool) (o : Option ℕ)
        → let out : ℤ × Db = if b then (negsuc 0, db) else elim o [
          | none ↦ new_user same (trim name) (lower (trim email)) pwd db
          | some code ↦ (reg_user_trouble code, db)
        ] in
          out.0 ≡ pos (suc u) → out.1 ≡ insert_user (suc u) (trim name) (lower (trim email)) pwd db
    go true o h = absurd (cc)
    go false none h = new_user-inserted same (trim name) (lower (trim email)) pwd db u h
    go false (some code) h = absurd (trouble_number (code == 1062) h)

-- A server that other connections leave alone.
abbrev pub Alone : Env → Type 0
Alone env = (n : ℕ) (d : Db) → env.interfere n d ≡ d

-- The tables and the calls after a registration that gave a uid.
module _ (env : Env) (alone : Alone env) (lower : Text → Text) (trouble : Option ℕ)
    (name email hash : Text) (d : Db) (n : ℕ) where
  abbrev called : ℤ × Db
  called = reg_user env.same lower trouble name email hash (env.interfere (n + 1) d)

  -- What `RegUser` comes to, by which of its calls fail.
  outcome : Bool → Option ℕ → Option ℕ → ℤ × Conn
  outcome false o p = (pos 0, idle d (n + 1))
  outcome true (some code) p = (negsuc 0, idle (env.interfere (n + 1) d) (n + 1 + 1))
  outcome true none (some code) =
      (negsuc 0, idle (env.interfere (n + 1 + 1) called.1) (n + 1 + 1 + 1))
  outcome true none none = (called.0, idle (env.interfere (n + 1 + 1) called.1) (n + 1 + 1 + 1))

  abbrev registration : ℤ × Conn
  registration =
      with_sql env (pos 0) (negsuc 0) (call_reg_user env lower trouble name email hash) (idle d n)

  registration-outcome :
      (b : Bool) (o p : Option ℕ)
      → env.leases n ≡ b
      → env.fault (n + 1) ≡ o
      → env.fault (n + 1 + 1) ≡ p
      → registration ≡ outcome b o p
  unfolding with_sql call_reg_user ◌>>=◌ statement outcome
  registration-outcome false o p w v x = rw (with_sql, w) refl
  registration-outcome true (some code) p w v x = rw (with_sql, w, statement, v) refl
  registration-outcome true none (some code) w v x = rw (with_sql, w, statement, v, x) refl
  registration-outcome true none none w v x = rw (with_sql, w, statement, v, x) refl

  outcome-inserted :
      (b : Bool) (o p : Option ℕ) (u : ℕ)
      → (outcome b o p).0 ≡ pos (suc u)
      → (outcome b o p).1
        ≡ idle (insert_user (suc u) (trim name) (lower (trim email)) hash d) (n + 1 + 1 + 1)
  unfolding outcome
  outcome-inserted false o p u h = absurd (cc)
  outcome-inserted true (some code) p u h = absurd (cc)
  outcome-inserted true none (some code) u h = absurd (cc)
  outcome-inserted true none none u h =
      let quiet = alone (n + 1) d in
      let given : (reg_user env.same lower trouble name email hash d).0 ≡ pos (suc u) =
        rw quiet at h in
      ap (λ x. idle x (n + 1 + 1 + 1))
        (alone (n + 1 + 1) called.1
          ∙ rw quiet (reg_user-inserted env.same lower trouble name email hash d u given))

  -- The tables and the calls after a registration that gave a uid.
  registration-inserted :
      (u : ℕ)
      → registration.0 ≡ pos (suc u)
      → registration.1
        ≡ idle (insert_user (suc u) (trim name) (lower (trim email)) hash d) (n + 1 + 1 + 1)
  registration-inserted u h =
      let e =
        registration-outcome (env.leases n) (env.fault (n + 1)) (env.fault (n + 1 + 1)) refl refl
          refl in
      ap (λ x. x.1) e
      ∙ outcome-inserted (env.leases n) (env.fault (n + 1)) (env.fault (n + 1 + 1)) u
          (sym (ap (λ x. x.0) e) ∙ h)

-- `CheckPwd` of the account that stands first.
check_pwd-found :
    (env : Env)
    → Alone env
    → (sodium : Sodium) (email pwd : Text) (info : UserInfo) (d : Db) (n : ℕ) → env.leases n ≡ true
    → env.fault (n + 1) ≡ none
    → (check_pwd env sodium email pwd info (idle d n)).0
      ≡ judge_pwd sodium email pwd info (find_email env.same email d.users)
unfolding check_pwd with_sql ◌>>=◌ statement pure
check_pwd-found env alone sodium email pwd info d n w v =
    rw (check_pwd, with_sql, w, statement, v, alone (n + 1) d) refl

-- A user whose registration gave a uid logs in with the email and the password, as long as the database
-- answers and nobody else writes: `CheckPwd` accepts, and names the user and the uid. The collation
-- takes the stored email, trimmed and in lower case, for the email that was given.
pub check_pwd-reg_user_method :
    (env : Env)
    → Alone env
    → (sodium : Sodium) → Documented sodium
    → (lower : Text → Text) (salt : ℕ) (trouble : Option ℕ) (name email pwd : Text)
    → env.same (lower (trim email)) email ≡ true
    → (d : Db) (n u : ℕ) (info : UserInfo)
    → let registered = reg_user_method env sodium lower salt trouble name email pwd (idle d n) in
      registered.0 ≡ pos (suc u)
      → env.leases registered.1.tick ≡ true
      → env.fault (registered.1.tick + 1) ≡ none
      → (check_pwd env sodium email pwd info registered.1).0
        ≡ (true, record info { name = trim name; email = email; uid = pos (suc u) })
unfolding reg_user_method register_hashed insert_user find_email judge_pwd
check_pwd-reg_user_method env alone sodium doc lower salt trouble name email pwd same d n u info =
    go (hash_password sodium salt pwd) refl
  where
    judged :
        (hash : Text)
        → verify_password sodium hash pwd ≡ true
        → judge_pwd sodium email pwd info (
            find_email env.same email
              (insert_user (suc u) (trim name) (lower (trim email)) hash d).users)
          ≡ (true, record info { name = trim name; email = email; uid = pos (suc u) })
    judged hash ok = rw (find_email, insert_user, same, judge_pwd, ok) refl

    go :
        (hash : Option Text)
        → hash_password sodium salt pwd ≡ hash
        → let registered = register_hashed env lower trouble name email hash (idle d n) in
          registered.0 ≡ pos (suc u)
          → env.leases registered.1.tick ≡ true
          → env.fault (registered.1.tick + 1) ≡ none
          → (check_pwd env sodium email pwd info registered.1).0
            ≡ (true, record info { name = trim name; email = email; uid = pos (suc u) })
    go none e h w v = absurd (cc)
    go (some hash) e h w v =
        subst
          (λ (c : Conn).
            env.leases c.tick ≡ true
            → env.fault (c.tick + 1) ≡ none
            → (check_pwd env sodium email pwd info c).0
              ≡ (true, record info { name = trim name; email = email; uid = pos (suc u) }))
          (sym (registration-inserted env alone lower trouble name email hash d n u h))
          (λ w' v'.
            check_pwd-found env alone sodium email pwd info _ _ w' v'
            ∙ judged hash (verify_password-hash_password sodium doc salt pwd hash e))
          w v
