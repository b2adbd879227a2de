-- ===== src/Accounts/Users/Unique.antt =====
-- The accounts that `reg_user` (database/schema.sql) and `RegUser` (Common/src/MysqlDao.cpp) make.
use sakura_chat_server.Prelude.{
  ℕ, ◌+◌, ◌≤◌, ◌≡◌, refl, Text, ℤ, pos, negsuc, int_eq, is_empty, Bool, true, false, ◌||◌, Option,
  none, some, List, [], ◌∷◌, first, All, All-imp, Pairwise, arith, leb, ltb, if◌then◌else◌,
}
use sakura_chat_server.Database.{User, Db, is_some}
use sakura_chat_server.Database.Sql.{Env}
use sakura_chat_server.Database.Triple.{committed, idle, statement-idle, statement-ends}
use sakura_chat_server.Database.Leases.{Kept}
use sakura_chat_server.Passwords.{Sodium, hash_password}
use sakura_chat_server.Accounts.Procedures.{
  trim, is_taken, insert_user, new_user, reg_user_trouble, reg_user,
}
use sakura_chat_server.Accounts.Users.{call_reg_user, register_hashed, reg_user_method}
use sakura_chat_server.Accounts.Users.Kept.{with_sql-Kept}

-- A newer account, and an older one: neither name nor email is the same.
abbrev pub Apart : (Text → Text → Bool) → User → User → Type 0
Apart same new old = (same old.name new.name ≡ false) × (same old.email new.email ≡ false)

-- The uid of an account is one that was given.
abbrev pub Given : ℕ → User → Type 0
Given last u = (n : ℕ) × (u.uid ≡ pos n) × (n ≤ last)

abbrev pub Fresh : User → User → Type 0
Fresh new old = int_eq old.uid new.uid ≡ false

-- Names, emails and uids are each of one account.
pub record UniqueUsers (same : Text → Text → Bool) (db : Db) : Type 0 where
  pub apart : Pairwise (Apart same) db.users
  pub fresh : Pairwise Fresh db.users
  pub given : All (Given db.last_uid) db.users

module _ (same : Text → Text → Bool) where
  -- An account that shares neither the name nor the email.
  abbrev Differs : Text → Text → User → Type 0
  Differs name email old = (same old.name name ≡ false) × (same old.email email ≡ false)

  not_taken :
      (name email : Text) (users : List User)
      → is_taken same name email users ≡ false
      → All (Differs name email) users
  unfolding is_taken
  not_taken name email [] h = tt
  not_taken name email (u ∷ users) h =
      go (same u.name name) (same u.email email) refl refl (not_taken name email users) h
    where
      go :
          (p q : Bool)
          → same u.name name ≡ p
          → same u.email email ≡ q
          → (is_taken same name email users ≡ false → All (Differs name email) users)
          → is_some
              (if p || q then some u else first (λ x. same x.name name || same x.email email) users)
            ≡ false
          → Differs name email u × All (Differs name email) users
      go true q e f rest h = cc
      go false true e f rest h = cc
      go false false e f rest h = ((e, f), rest h)

  fresh_uid : (last : ℕ) (u : User) → Given last u → int_eq u.uid (pos (last + 1)) ≡ false
  fresh_uid last u (n, e, h) = rw e (ground arith)

  new_user-UniqueUsers :
      (name email pwd : Text) (db : Db)
      → UniqueUsers same db
      → UniqueUsers same (new_user same name email pwd db).1
  unfolding new_user insert_user
  new_user-UniqueUsers name email pwd db v =
      go (is_taken same name email db.users)
        (ltb 2147483647 (db.last_uid + 1) || leb 2147483647 (db.last_uid + 1)) refl
    where
      go :
          (t full : Bool)
          → is_taken same name email db.users ≡ t
          → let out : ℤ × Db =
              if t
              then (pos 0, db)
              else if full
              then (negsuc 0, db)
              else (pos (db.last_uid + 1), insert_user (db.last_uid + 1) name email pwd db) in
            UniqueUsers same out.1
      go true full e = v
      go false true e = v
      go false false e = record {
        apart = (not_taken name email db.users e, v.apart);
        fresh = (
          All-imp (Given db.last_uid) (λ u. int_eq u.uid (pos (db.last_uid + 1)) ≡ false)
              (fresh_uid db.last_uid) db.users v.given,
          v.fresh,
        );
        given = (
          (db.last_uid + 1, refl, omega arith),
          All-imp (Given db.last_uid) (Given (db.last_uid + 1))
              (λ u g. (g.0, g.1, omega (arith, g.2))) db.users v.given,
        );
      }

  reg_user-UniqueUsers :
      (lower : Text → Text) (trouble : Option ℕ) (name email pwd : Text) (db : Db)
      → UniqueUsers same db
      → UniqueUsers same (reg_user same lower trouble name email pwd db).1
  unfolding reg_user
  reg_user-UniqueUsers lower trouble name email pwd db v =
      go (is_empty (trim name) || (is_empty (trim email) || is_empty pwd)) trouble
    where
      go :
          (b : Bool) (o : Option ℕ)
          → let out : ℤ × Db = if b then (negsuc 0, db) else elim o [
            | none ↦ new_user same (trim name) (lower (trim email)) pwd db
            | some code ↦ (reg_user_trouble code, db)
          ] in
            UniqueUsers same out.1
      go true o = v
      go false none = new_user-UniqueUsers (trim name) (lower (trim email)) pwd db v
      go false (some code) = v

-- Whatever is registered, whichever call fails and whatever others commit as long as that keeps it:
-- no two accounts have the same name or email under the collation of the table, nor the same uid, and
-- no uid is one that `user_id` has still to give.
pub reg_user_method-UniqueUsers :
    (env : Env)
    (others : (n : ℕ) (d : Db) → UniqueUsers env.same d → UniqueUsers env.same (env.interfere n d))
    (sodium : Sodium) (lower : Text → Text) (salt : ℕ) (trouble : Option ℕ) (name email pwd : Text)
    (d : Db) (n : ℕ)
    → UniqueUsers env.same d
    → UniqueUsers env.same
        (committed (reg_user_method env sodium lower salt trouble name email pwd (idle d n)).1)
unfolding reg_user_method register_hashed call_reg_user
reg_user_method-UniqueUsers env others sodium lower salt trouble name email pwd d n v =
    go (hash_password sodium salt pwd)
  where
    I : Db → Type 0
    I = UniqueUsers env.same

    go :
        (hash : Option Text)
        → I (committed (register_hashed env lower trouble name email hash (idle d n)).1)
    go none = v
    go (some hash) =
        let v1 = others (n + 1) d v in
        let v2 = reg_user-UniqueUsers env.same lower trouble name email hash _ v1 in
        with_sql-Kept I env (pos 0) (negsuc 0) (call_reg_user env lower trouble name email hash) d n
          v
          (statement-idle (Kept I) I (Kept I) env _ _ d (n + 1) v1 λ n'.
            statement-ends (Kept I) I (Kept I) env _ _ n' (others n' _ v2) λ _. others n' _ v2)
