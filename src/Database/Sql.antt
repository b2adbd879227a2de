-- ===== src/Database/Sql.antt =====
-- The connection of a request: statements that may fail, a transaction that may be rolled back,
-- other connections that commit in between, and the lease of Common/src/ChatPersistence.cpp that
-- never gives an open transaction back to the pool.
use sakura_chat_server.Prelude.{ℕ, ◌+◌, Text, Bool, true, false, Option, none, some}
use sakura_chat_server.Database.{Db}

-- What the program does not decide, at the n-th call of the server: whether it fails, and with
-- which MySQL error code; whether a commit that reports a failure took effect all the same; whether
-- the pool has a connection; and what other connections committed just before. `same` is the
-- comparison of the collation of `client_msg_id`.
pub record Env : Type 0 where
  pub fault : ℕ → Option ℕ
  pub commit_applied : ℕ → Bool
  pub leases : ℕ → Bool
  pub interfere : ℕ → Db → Db
  pub same : Text → Text → Bool

-- The tables as this connection sees them, what a rollback goes back to, and the calls made so far.
pub record Conn : Type 0 where
  pub db : Db
  pub saved : Option Db
  pub tick : ℕ

-- `sql::SQLException` with its code, and any other exception.
pub data Fault : Type 0 where
  sql : ℕ → Fault
  other : Fault

-- How a block of code ends: it goes on with a value, returns from the function, or throws.
pub data Flow (R A : Type 0) : Type 0 where
  value : A → Flow R A
  returns : R → Flow R A
  raises : Fault → Flow R A

abbrev pub Sql : Type 0 → Type 0 → Type 0
Sql R A = Conn → Flow R A × Conn

abbrev pub proceed : {R A B : Type 0} → Flow R A × Conn → (A → Sql R B) → Flow R B × Conn
proceed (value a, c) f = f a c
proceed (returns r, c) f = (returns r, c)
proceed (raises e, c) f = (raises e, c)

infixl 5 ◌>>=◌ ◌>>◌
unfoldable pub ◌>>=◌ : {R A B : Type 0} → Sql R A → (A → Sql R B) → Sql R B
◌>>=◌ m f c = proceed (m c) f

abbrev pub ◌>>◌ : {R B : Type 0} → Sql R (Unit {0}) → Sql R B → Sql R B
m >> k = m >>= λ _. k

-- `return r;` in the middle of a function
unfoldable pub stop : {R A : Type 0} → R → Sql R A
stop r c = (returns r, c)

-- `if (b) return r;`
unfoldable pub stop_if : {R : Type 0} → Bool → R → Sql R (Unit {0})
stop_if true r c = (returns r, c)
stop_if false r c = (value tt, c)

unfoldable pub pure : {R A : Type 0} → A → Sql R A
pure a c = (value a, c)

-- What a statement sees: in a transaction the tables as they are, since the rows that it works on
-- are locked; otherwise also what others committed.
abbrev pub seen : Env → Conn → Db
seen env c = elim c.saved [ none ↦ env.interfere c.tick c.db | some before ↦ c.db ]

-- A statement: prepared, bound, executed and its rows read.
unfoldable pub statement : {R A : Type 0} → Env → (Db → A × Db) → Sql R A
statement env f c = elim (env.fault c.tick) [
  | some code ↦ (raises (sql code), record c { db = seen env c; tick = c.tick + 1 })
  | none ↦ let (a, db) = f (seen env c) in (value a, record c { db = db; tick = c.tick + 1 })
]

abbrev pub query : {R A : Type 0} → Env → (Db → A) → Sql R A
query env f = statement env (λ db. (f db, db))

abbrev pub update : {R : Type 0} → Env → (Db → Db) → Sql R (Unit {0})
update env f = statement env (λ db. (tt, f db))

-- `setAutoCommit(false)`: a rollback from here on goes back to these tables.
unfoldable pub begin : {R : Type 0} → Env → Sql R (Unit {0})
begin env c = elim (env.fault c.tick) [
  | some code ↦ (raises (sql code), record c { db = seen env c; tick = c.tick + 1 })
  | none ↦ (value tt, record { db = seen env c; saved = some (seen env c); tick = c.tick + 1 })
]

-- What a commit that fails leaves: its outcome is not known to the caller.
abbrev pub uncertain : Bool → Conn → Conn
uncertain true c = record c { saved = none; tick = c.tick + 1 }
uncertain false c = record c { tick = c.tick + 1 }

-- `commit(); setAutoCommit(true);`
unfoldable pub commit : {R : Type 0} → Env → Sql R (Unit {0})
commit env c = elim (env.fault c.tick) [
  | some code ↦ (raises (sql code), uncertain (env.commit_applied c.tick) c)
  | none ↦ (value tt, record c { saved = none; tick = c.tick + 1 })
]

abbrev pub undo : Conn → Conn
undo c = elim c.saved [ none ↦ c | some before ↦ record c { db = before; saved = none } ]

-- `rollback(); setAutoCommit(true);`
unfoldable pub rollback : {R : Type 0} → Env → Sql R (Unit {0})
rollback env c = elim (env.fault c.tick) [
  | some code ↦ (raises (sql code), record c { tick = c.tick + 1 })
  | none ↦ (value tt, record (undo c) { tick = c.tick + 1 })
]

-- The end of a block under a `Lease`: `~Lease` rolls an open transaction back.
unfoldable pub with_lease : {R A : Type 0} → Env → Sql R A → Sql R A
with_lease env m c = elim (env.leases c.tick) [
  | false ↦ (raises other, record c { tick = c.tick + 1 })
  | true ↦ let (r, c') = m (record c { tick = c.tick + 1 }) in (r, undo c')
]

-- A `try` block whose `catch (...)` returns.
unfoldable pub catching : {R : Type 0} → Sql R R → R → Conn → R × Conn
catching m failed c =
    let (r, c') = m c in (elim r [ value a ↦ a | returns a ↦ a | raises e ↦ failed ], c')
