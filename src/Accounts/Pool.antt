-- ===== src/Accounts/Pool.antt =====
-- `MySqlPool` (Common/src/MysqlDao.cpp). A connection is named by a number; that a server answers it and
-- that it may be opened anew is decided outside.
pub mod Balance
use sakura_chat_server.Prelude.{
  ℕ, zero, suc, ◌+◌, Bool, true, false, Option, none, some, List, [], ◌∷◌, ◌++◌, length, ltb,
  get_elem?, if◌then◌else◌,
}

-- `SqlConnection`, with its time in seconds
pub record SqlConnection : Type 0 where
  pub con : ℕ
  pub last_oper_time : ℕ

pub record MySqlPool : Type 0 where
  pub connections : List SqlConnection
  pub b_stop : Bool
  pub checked : Bool

-- The loop of the constructor over what `connect` gives in turn: an exception ends it.
unfoldable pub connect_all : ℕ → List (Option ℕ) → List SqlConnection × Bool
connect_all now [] = ([], true)
connect_all now (none ∷ rest) = ([], false)
connect_all now (some c ∷ rest) =
    let (opened, done) = connect_all now rest in
    (record { con = c; last_oper_time = now } ∷ opened, done)

-- The constructor; the thread of the health check is started when all are open.
unfoldable pub new_my_sql_pool : ℕ → List (Option ℕ) → MySqlPool
unfolding connect_all
new_my_sql_pool now outcomes =
    let (opened, done) = connect_all now outcomes in
    record { connections = opened; b_stop = false; checked = done }

-- What `SELECT 1` on a connection and a new `connect` do.
pub record Health : Type 0 where
  pub answers : ℕ → Bool
  pub reconnect : ℕ → Option ℕ

abbrev pub reopened : ℕ → SqlConnection → Option ℕ → SqlConnection × Bool
reopened now c none = (c, false)
reopened now c (some fresh) = (record { con = fresh; last_oper_time = now }, true)

-- The body of the loop of `checkConnection`: the connection that goes back, and whether the loop goes
-- on; an exception of `connect` ends it.
unfoldable pub check_one : Health → ℕ → SqlConnection → SqlConnection × Bool
check_one health now c =
    if ltb now (c.last_oper_time + 5)
    then (c, true)
    else if health.answers c.con
    then (record c { last_oper_time = now }, true)
    else reopened now c (health.reconnect c.con)

unfoldable pub check_rounds : Health → ℕ → ℕ → List SqlConnection → List SqlConnection × Bool
unfolding check_one
check_rounds health now zero q = (q, true)
check_rounds health now (suc n) [] = ([], true)
check_rounds health now (suc n) (c ∷ q) =
    let (c', goes_on) = check_one health now c in
    let rest = check_rounds health now n (q ++ c' ∷ []) in
    if goes_on then rest else (q ++ c' ∷ [], false)

-- `checkConnection`
unfoldable pub check_connection : Health → ℕ → MySqlPool → MySqlPool
unfolding check_rounds
check_connection health now p = record p {
  connections = (check_rounds health now (length p.connections) p.connections).0;
}

abbrev pub pop_connection : MySqlPool → List SqlConnection → Option SqlConnection × MySqlPool
pop_connection p [] = (none, p)
pop_connection p (c ∷ rest) = (some c, record p { connections = rest })

-- What `getConnection` finds at the end of its wait; `none` is a null pointer.
unfoldable pub get_sql_connection : MySqlPool → Option SqlConnection × MySqlPool
get_sql_connection p = if p.b_stop then (none, p) else pop_connection p p.connections

-- `returnConnection`: a null pointer is passed over, and a stopped pool drops the connection.
unfoldable pub return_sql_connection : Option SqlConnection → MySqlPool → MySqlPool
return_sql_connection none p = p
return_sql_connection (some c) p =
    if p.b_stop then p else record p { connections = p.connections ++ c ∷ [] }

-- `Close`
unfoldable pub close_my_sql_pool : MySqlPool → MySqlPool
close_my_sql_pool p = record p { b_stop = true }

-- The destructor closes, waits for the thread and empties the queue.
unfoldable pub end_my_sql_pool : MySqlPool → MySqlPool
unfolding close_my_sql_pool
end_my_sql_pool p = record (close_my_sql_pool p) { connections = [] }

-- The pool, the connections that methods hold, the number of those that a closed pool dropped, and of
-- those that `~Lease` (Common/src/ChatPersistence.cpp) discarded.
pub record Shares : Type 0 where
  pub pool : MySqlPool
  pub lent : List SqlConnection
  pub dropped : ℕ
  pub discarded : ℕ

-- What happens to a pool: a method takes a connection, the method that holds the one at an index gives
-- it back, or discards it as its rollback fails, the thread checks, and the pool is closed.
pub data PoolEvent : Type 0 where
  takes : PoolEvent
  gives : ℕ → PoolEvent
  discards : ℕ → PoolEvent
  checks : Health → ℕ → PoolEvent
  closes : PoolEvent

abbrev pub lend : Shares → Option SqlConnection × MySqlPool → Shares
lend s (none, p) = record s { pool = p }
lend s (some c, p) = record s { pool = p; lent = c ∷ s.lent }

abbrev pub remove_at : ℕ → List SqlConnection → List SqlConnection
remove_at n [] = []
remove_at zero (c ∷ cs) = cs
remove_at (suc n) (c ∷ cs) = c ∷ remove_at n cs

abbrev pub give_back : Shares → ℕ → Option SqlConnection → Shares
give_back s n none = record s { pool = return_sql_connection none s.pool }
give_back s n (some c) = record s {
  pool = return_sql_connection (some c) s.pool;
  lent = remove_at n s.lent;
  dropped = if s.pool.b_stop then s.dropped + 1 else s.dropped;
}

-- `~Lease` whose rollback throws: the holder is destroyed, and the pool hears nothing.
abbrev pub discard : Shares → ℕ → Option SqlConnection → Shares
discard s n none = s
discard s n (some c) = record s { lent = remove_at n s.lent; discarded = s.discarded + 1 }

unfoldable pub pool_step : Shares → PoolEvent → Shares
unfolding get_sql_connection return_sql_connection check_connection close_my_sql_pool
pool_step s takes = lend s (get_sql_connection s.pool)
pool_step s (gives n) = give_back s n (get_elem? s.lent n)
pool_step s (discards n) = discard s n (get_elem? s.lent n)
pool_step s (checks health now) = record s { pool = check_connection health now s.pool }
pool_step s closes = record s { pool = close_my_sql_pool s.pool }

unfoldable pub pool_run : Shares → List PoolEvent → Shares
unfolding pool_step
pool_run s [] = s
pool_run s (e ∷ es) = pool_run (pool_step s e) es

-- A pool that nobody has taken from.
unfoldable pub opened_pool : ℕ → List (Option ℕ) → Shares
unfolding new_my_sql_pool
opened_pool now outcomes = record {
  pool = new_my_sql_pool now outcomes;
  lent = [];
  dropped = 0;
  discarded = 0;
}
