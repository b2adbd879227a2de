-- ===== src/Database/Triple.antt =====
-- How a block of statements ends, and rules for reasoning about one in a transaction whatever
-- statement of it fails.
use sakura_chat_server.Prelude.{ℕ, ◌+◌, ◌≡◌, refl, Bool, true, false, none, some}
use sakura_chat_server.Database.{Db}
use sakura_chat_server.Database.Sql.{
  Env, Conn, Flow, value, returns, raises, Sql, ◌>>=◌, proceed, stop_if, statement, begin, commit,
  rollback, uncertain, undo, seen, sql,
}

-- What holds at the end of a block: `Q` if it goes on, `I` if it returns, `E` if it throws.
abbrev pub Ends :
    {R A : Type 0}
    → (R → Conn → Type 0)
    → (Conn → Type 0)
    → (A → Conn → Type 0)
    → Flow R A × Conn
    → Type 0
Ends I E Q (value a, c) = Q a c
Ends I E Q (returns r, c) = I r c
Ends I E Q (raises e, c) = E c

-- The tables that would be left if the connection were lost.
abbrev pub committed : Conn → Db
committed c = elim c.saved [ none ↦ c.db | some before ↦ before ]

-- A transaction is open: it began with the tables `d`, and has made them `e`.
abbrev pub within : Db → Db → ℕ → Conn
within d e n = record { db = e; saved = some d; tick = n }

-- No transaction is open.
abbrev pub idle : Db → ℕ → Conn
idle d n = record { db = d; saved = none; tick = n }

module _ {R B : Type 0} (I : R → Conn → Type 0) (P : Db → Type 0) (S : B → Conn → Type 0) where
  -- What is committed still satisfies `P`, also when an exception is thrown.
  abbrev pub Safe : Flow R B × Conn → Type 0
  Safe out = Ends I (λ c. P (committed c)) S out

  -- A statement of an open transaction changes only the tables that the transaction sees.
  pub statement-within :
      {A : Type 0} (env : Env) (f : Db → A × Db) (k : A → Sql R B) (d e : Db) (n : ℕ)
      → P d
      → ((n' : ℕ) → Safe (k (f e).0 (within d (f e).1 n')))
      → Safe ((statement env f >>= k) (within d e n))
  unfolding ◌>>=◌ statement
  statement-within env f k d e n p h =
      elim (env.fault n)
        as (λ o. Safe (
          ◌>>=◌
            (λ c. elim o [
              | some code ↦ (raises (sql code), record c { db = seen env c; tick = c.tick + 1 })
              | none ↦
                  let (a, db) = f (seen env c) in (value a, record c { db = db; tick = c.tick + 1 })
            ])
            k (within d e n))) [ none ↦ h (n + 1) | some code ↦ p ]

  -- Outside a transaction it changes the tables themselves, after the others' commits.
  pub statement-idle :
      {A : Type 0} (env : Env) (f : Db → A × Db) (k : A → Sql R B) (d : Db) (n : ℕ)
      → P (env.interfere n d)
      → ((n' : ℕ) → Safe (k (f (env.interfere n d)).0 (idle (f (env.interfere n d)).1 n')))
      → Safe ((statement env f >>= k) (idle d n))
  unfolding ◌>>=◌ statement
  statement-idle env f k d n p h =
      elim (env.fault n)
        as (λ o. Safe (
          ◌>>=◌
            (λ c. elim o [
              | some code ↦ (raises (sql code), record c { db = seen env c; tick = c.tick + 1 })
              | none ↦
                  let (a, db) = f (seen env c) in (value a, record c { db = db; tick = c.tick + 1 })
            ])
            k (idle d n))) [ none ↦ h (n + 1) | some code ↦ p ]

  -- A statement that ends a block.
  pub statement-ends :
      (env : Env) (f : Db → B × Db) (d : Db) (n : ℕ)
      → P (env.interfere n d)
      → ((n' : ℕ) → S (f (env.interfere n d)).0 (idle (f (env.interfere n d)).1 n'))
      → Safe (statement env f (idle d n))
  unfolding statement
  statement-ends env f d n p h =
      elim (env.fault n)
        as (λ o.
          let out : Flow R B × Conn = elim o [
            | some code ↦ (raises (sql code), idle (env.interfere n d) (n + 1))
            | none ↦ let (a, db) = f (env.interfere n d) in (value a, idle db (n + 1))
          ] in
          Safe out) [ none ↦ h (n + 1) | some code ↦ p ]

  pub statement-ends-within :
      (env : Env) (f : Db → B × Db) (d e : Db) (n : ℕ)
      → P d
      → ((n' : ℕ) → S (f e).0 (within d (f e).1 n'))
      → Safe (statement env f (within d e n))
  unfolding statement
  statement-ends-within env f d e n p h =
      elim (env.fault n)
        as (λ o.
          let out : Flow R B × Conn = elim o [
            | some code ↦ (raises (sql code), within d e (n + 1))
            | none ↦ let (a, db) = f e in (value a, within d db (n + 1))
          ] in
          Safe out) [ none ↦ h (n + 1) | some code ↦ p ]

  pub begin-idle :
      (env : Env) (k : Unit {0} → Sql R B) (d : Db) (n : ℕ)
      → P (env.interfere n d)
      → ((n' : ℕ) → Safe (k tt (within (env.interfere n d) (env.interfere n d) n')))
      → Safe ((begin env >>= k) (idle d n))
  unfolding ◌>>=◌ begin
  begin-idle env k d n p h =
      elim (env.fault n)
        as (λ o. Safe (
          ◌>>=◌
            (λ c. elim o [
              | some code ↦ (raises (sql code), record c { db = seen env c; tick = c.tick + 1 })
              | none ↦ (
                value tt,
                record { db = seen env c; saved = some (seen env c); tick = c.tick + 1 },
              )
            ])
            k (idle d n))) [ none ↦ h (n + 1) | some code ↦ p ]

  -- A commit that fails may have taken effect or not.
  pub commit-within :
      (env : Env) (k : Unit {0} → Sql R B) (d e : Db) (n : ℕ)
      → P d
      → P e
      → ((n' : ℕ) → Safe (k tt (idle e n')))
      → Safe ((commit env >>= k) (within d e n))
  unfolding ◌>>=◌ commit
  commit-within env k d e n p q h =
      elim (env.fault n)
        as (λ o. Safe (
          ◌>>=◌
            (λ c. elim o [
              | some code ↦ (raises (sql code), uncertain (env.commit_applied c.tick) c)
              | none ↦ (value tt, record c { saved = none; tick = c.tick + 1 })
            ])
            k (within d e n))) [ none ↦ h (n + 1) | some code ↦ failed (env.commit_applied n) ]
    where
      failed : (b : Bool) → P (committed (uncertain b (within d e n)))
      failed true = q
      failed false = p

  pub rollback-within :
      (env : Env) (k : Unit {0} → Sql R B) (d e : Db) (n : ℕ)
      → P d
      → ((n' : ℕ) → Safe (k tt (idle d n')))
      → Safe ((rollback env >>= k) (within d e n))
  unfolding ◌>>=◌ rollback
  rollback-within env k d e n p h =
      elim (env.fault n)
        as (λ o. Safe (
          ◌>>=◌
            (λ c. elim o [
              | some code ↦ (raises (sql code), record c { tick = c.tick + 1 })
              | none ↦ (value tt, record (undo c) { tick = c.tick + 1 })
            ])
            k (within d e n))) [ none ↦ h (n + 1) | some code ↦ p ]

  -- An early return leaves what is there; otherwise the block goes on.
  pub stop_if-Safe :
      (b : Bool) (r : R) (k : Unit {0} → Sql R B) (c : Conn)
      → (b ≡ true → I r c)
      → (b ≡ false → Safe (k tt c))
      → Safe ((stop_if b r >>= k) c)
  unfolding ◌>>=◌ stop_if
  stop_if-Safe true r k c t f = t refl
  stop_if-Safe false r k c t f = f refl

  -- A block and what follows it, by what the block must end with.
  pub Safe-bind :
      {A : Type 0} (m : Sql R A) (k : A → Sql R B) (c : Conn)
      → Ends I (λ c'. P (committed c')) (λ a c'. Safe (k a c')) (m c)
      → Safe ((m >>= k) c)
  unfolding ◌>>=◌
  Safe-bind {A = A} m k c h = go (m c) h
    where
      go :
          (out : Flow R A × Conn)
          → Ends I (λ c'. P (committed c')) (λ a c'. Safe (k a c')) out
          → Safe (proceed out k)
      go (value a, c') h = h
      go (returns r, c') h = h
      go (raises e, c') h = h
