-- ===== src/Accounts/Pool/Balance.antt =====
-- Who holds the connections of `MySqlPool` (Common/src/MysqlDao.cpp), and what a health check does.
use mathlib.Core.List.{append-nil, append_assoc}
use sakura_chat_server.Prelude.{
  ℕ, zero, suc, ◌+◌, ◌≤◌, ◌≡◌, refl, sym, ap, ◌∙◌, subst, Bool, true, false, Option, none, some,
  List, [], ◌∷◌, ◌++◌, map, length, length-append, if◌then◌else◌, arith, All, get_elem?,
}
use sakura_chat_server.Accounts.Pool.{
  SqlConnection, MySqlPool, Health, check_one, check_rounds, check_connection, connect_all,
  new_my_sql_pool, pop_connection, get_sql_connection, return_sql_connection, close_my_sql_pool,
  Shares, PoolEvent, takes, gives, discards, checks, closes, lend, remove_at, give_back, discard,
  pool_step, pool_run, opened_pool,
}

-- What a check leaves of a connection.
unfoldable pub refreshed : Health → ℕ → SqlConnection → SqlConnection
unfolding check_one
refreshed health now c = (check_one health now c).0

-- The check of a connection does not end the loop.
abbrev pub GoesOn : Health → ℕ → SqlConnection → Type 0
GoesOn health now c = (check_one health now c).1 ≡ true

-- A full turn of the queue, part by part: those that are checked stand behind those that are not.
check_rounds-turn :
    (health : Health) (now : ℕ) (q done : List SqlConnection)
    → All (GoesOn health now) q
    → check_rounds health now (length q) (q ++ done) ≡ (done ++ map (refreshed health now) q, true)
unfolding check_rounds refreshed
check_rounds-turn health now [] done h = ap (λ x. (x, true)) (sym (append-nil done))
check_rounds-turn health now (c ∷ q) done (h, hs) = rw h (
    rw (append_assoc q done (refreshed health now c ∷ [])) (
      check_rounds-turn health now q (done ++ refreshed health now c ∷ []) hs
      ∙ ap (λ x. (x, true))
          (append_assoc done (refreshed health now c ∷ []) (map (refreshed health now) q))))

-- When no reopening fails, `checkConnection` leaves the queue in its order, each connection refreshed
-- on its own: the turns of the queue come full circle.
pub check_connection-refreshed :
    (health : Health) (now : ℕ) (p : MySqlPool)
    → All (GoesOn health now) p.connections
    → (check_connection health now p).connections ≡ map (refreshed health now) p.connections
unfolding check_connection
check_connection-refreshed health now p h =
    let turn = check_rounds-turn health now p.connections [] h in
    let whole = rw (append-nil p.connections) at turn in ap (λ x. x.0) whole

-- The connections of a pool that opened some: in the queue, with a method, dropped or discarded; none
-- is dropped before the pool is closed, and at most so many are discarded.
pub record Balanced (opened discards : ℕ) (s : Shares) : Type 0 where
  pub total : length s.pool.connections + length s.lent + s.dropped + s.discarded ≡ opened
  pub none_lost : s.pool.b_stop ≡ false → s.dropped ≡ 0
  pub few_discarded : s.discarded ≤ discards

-- The holders that discard their connection in a history.
unfoldable pub count_discards : List PoolEvent → ℕ
count_discards [] = 0
count_discards (discards n ∷ es) = count_discards es + 1
count_discards (_ ∷ es) = count_discards es

check_rounds-length :
    (health : Health) (now n : ℕ) (q : List SqlConnection)
    → length (check_rounds health now n q).0 ≡ length q
unfolding check_rounds
check_rounds-length health now zero q = refl
check_rounds-length health now (suc n) [] = refl
check_rounds-length health now (suc n) (c ∷ q) =
    go (check_one health now c).1
      (check_rounds-length health now n (q ++ (check_one health now c).0 ∷ []))
  where
    go :
        (b : Bool)
        → length (check_rounds health now n (q ++ (check_one health now c).0 ∷ [])).0
          ≡ length (q ++ (check_one health now c).0 ∷ [])
        → length
            (if b
              then check_rounds health now n (q ++ (check_one health now c).0 ∷ [])
              else (q ++ (check_one health now c).0 ∷ [], false)).0
          ≡ suc (length q)
    go true ih = omega (arith, ih, length-append q ((check_one health now c).0 ∷ []))
    go false ih = omega (arith, length-append q ((check_one health now c).0 ∷ []))

remove_at-length :
    (n : ℕ) (cs : List SqlConnection) (c : SqlConnection)
    → get_elem? cs n ≡ some c
    → suc (length (remove_at n cs)) ≡ length cs
remove_at-length n [] c e = cc
remove_at-length zero (x ∷ cs) c e = refl
remove_at-length (suc n) (x ∷ cs) c e = omega (arith, remove_at-length n cs c e)

pool_step-Balanced :
    (opened k : ℕ) (s : Shares) (e : PoolEvent)
    → Balanced opened k s
    → Balanced opened (k + count_discards (e ∷ [])) (pool_step s e)
unfolding pool_step count_discards get_sql_connection return_sql_connection check_connection
    close_my_sql_pool
pool_step-Balanced opened k s takes v = go s.pool.b_stop s.pool.connections refl refl
  where
    go :
        (b : Bool) (q : List SqlConnection)
        → s.pool.b_stop ≡ b
        → s.pool.connections ≡ q
        → Balanced opened (k + 0) (lend s (if b then (none, s.pool) else pop_connection s.pool q))
    go true q w e = record {
      total = v.total;
      none_lost = v.none_lost;
      few_discarded = omega (arith, v.few_discarded);
    }
    go false [] w e = record {
      total = v.total;
      none_lost = v.none_lost;
      few_discarded = omega (arith, v.few_discarded);
    }
    go false (c ∷ q) w e = record {
      total = omega (arith, v.total, ap length e);
      none_lost = v.none_lost;
      few_discarded = omega (arith, v.few_discarded);
    }
pool_step-Balanced opened k s (gives n) v = go (get_elem? s.lent n) refl
  where
    go :
        (o : Option SqlConnection)
        → get_elem? s.lent n ≡ o
        → Balanced opened (k + 0) (give_back s n o)
    go none e = record {
      total = v.total;
      none_lost = v.none_lost;
      few_discarded = omega (arith, v.few_discarded);
    }
    go (some c) e = given s.pool.b_stop refl (remove_at-length n s.lent c e)
      where
        given :
            (b : Bool)
            → s.pool.b_stop ≡ b
            → suc (length (remove_at n s.lent)) ≡ length s.lent
            → Balanced opened (k + 0) (record s {
              pool =
                  if b
                  then s.pool
                  else record s.pool { connections = s.pool.connections ++ c ∷ [] };
              lent = remove_at n s.lent;
              dropped = if b then s.dropped + 1 else s.dropped;
            })
        given true w l = record {
          total = omega (arith, v.total, l);
          none_lost = λ f. let clash : true ≡ false = sym w ∙ f in cc;
          few_discarded = omega (arith, v.few_discarded);
        }
        given false w l = record {
          total = omega (arith, v.total, l, length-append s.pool.connections (c ∷ []));
          none_lost = v.none_lost;
          few_discarded = omega (arith, v.few_discarded);
        }
pool_step-Balanced opened k s (discards n) v = go (get_elem? s.lent n) refl
  where
    go :
        (o : Option SqlConnection)
        → get_elem? s.lent n ≡ o
        → Balanced opened (k + (0 + 1)) (discard s n o)
    go none e = record {
      total = v.total;
      none_lost = v.none_lost;
      few_discarded = omega (arith, v.few_discarded);
    }
    go (some c) e = record {
      total = omega (arith, v.total, remove_at-length n s.lent c e);
      none_lost = v.none_lost;
      few_discarded = omega (arith, v.few_discarded);
    }
pool_step-Balanced opened k s (checks health now) v = record {
  total = omega (
    arith,
    v.total,
    check_rounds-length health now (length s.pool.connections) s.pool.connections,
  );
  none_lost = v.none_lost;
  few_discarded = omega (arith, v.few_discarded);
}
pool_step-Balanced opened k s closes v = record {
  total = v.total;
  none_lost = λ e. cc;
  few_discarded = omega (arith, v.few_discarded);
}

count_discards-cons :
    (e : PoolEvent) (es : List PoolEvent)
    → count_discards (e ∷ es) ≡ count_discards (e ∷ []) + count_discards es
unfolding count_discards
count_discards-cons takes es = omega arith
count_discards-cons (gives n) es = omega arith
count_discards-cons (discards n) es = omega arith
count_discards-cons (checks health now) es = omega arith
count_discards-cons closes es = omega arith

pool_run-Balanced :
    (opened k : ℕ) (s : Shares) (es : List PoolEvent)
    → Balanced opened k s
    → Balanced opened (k + count_discards es) (pool_run s es)
unfolding pool_run
pool_run-Balanced opened k s [] v = record {
  total = v.total;
  none_lost = v.none_lost;
  few_discarded = omega (arith, v.few_discarded);
}
pool_run-Balanced opened k s (e ∷ es) v =
    let more : k + count_discards (e ∷ []) + count_discards es ≡ k + count_discards (e ∷ es) =
      omega (arith, count_discards-cons e es) in
    subst (λ n. Balanced opened n (pool_run s (e ∷ es))) more
      (pool_run-Balanced opened (k + count_discards (e ∷ [])) (pool_step s e) es
        (pool_step-Balanced opened k s e v))

-- After any history of a new pool, each connection that was opened is in the queue, with a method,
-- dropped by the closed pool, or discarded by a method; none is dropped before the pool is closed, and
-- no more are discarded than methods discarded theirs.
pub opened_pool-Balanced :
    (now : ℕ) (outcomes : List (Option ℕ)) (es : List PoolEvent)
    → Balanced
        (length (connect_all now outcomes).0)
        (count_discards es)
        (pool_run (opened_pool now outcomes) es)
unfolding opened_pool new_my_sql_pool
opened_pool-Balanced now outcomes es =
    let none_yet : 0 + count_discards es ≡ count_discards es = omega arith in
    subst
      (λ n.
        Balanced (length (connect_all now outcomes).0) n (pool_run (opened_pool now outcomes) es))
      none_yet
      (pool_run-Balanced (length (connect_all now outcomes).0) 0 (opened_pool now outcomes) es
        (record { total = omega arith; none_lost = λ e. refl; few_discarded = omega arith }))
