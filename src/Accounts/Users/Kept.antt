-- ===== src/Accounts/Users/Kept.antt =====
-- What a method of Common/src/MysqlDao.cpp keeps of the tables.
use sakura_chat_server.Prelude.{ℕ, ◌+◌, Bool, true, false}
use sakura_chat_server.Database.{Db}
use sakura_chat_server.Database.Sql.{Env, Conn, Flow, value, returns, raises, Sql}
use sakura_chat_server.Database.Triple.{Safe, committed, idle}
use sakura_chat_server.Database.Leases.{Kept}
use sakura_chat_server.Accounts.Users.{with_sql}

module _ {R : Type 0} (P : Db → Type 0) where
  ended : (out : Flow R R × Conn) → Safe (Kept P) P (Kept P) out → P (committed out.1)
  ended (value r, c) p = p
  ended (returns r, c) p = p
  ended (raises e, c) p = p

  -- With or without a connection, what every end of the block keeps is kept.
  pub with_sql-Kept :
      (env : Env) (missing failed : R) (m : Sql R R) (d : Db) (n : ℕ)
      → P d
      → Safe (Kept P) P (Kept P) (m (idle d (n + 1)))
      → P (committed (with_sql env missing failed m (idle d n)).1)
  unfolding with_sql
  with_sql-Kept env missing failed m d n p h = go (env.leases n)
    where
      go :
          (b : Bool)
          → let out : R × Conn = elim b [
            | false ↦ (missing, idle d (n + 1))
            | true ↦
                let (r, c') = m (idle d (n + 1)) in
                (elim r [ value a ↦ a | returns a ↦ a | raises e ↦ failed ], c')
          ] in
            P (committed out.1)
      go false = p
      go true = ended (m (idle d (n + 1))) h
