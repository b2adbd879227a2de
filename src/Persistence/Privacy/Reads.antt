-- ===== src/Persistence/Privacy/Reads.antt =====
-- What `PrivacyAllows` leaves of the tables.
use sakura_chat_server.Prelude.{ℕ, ℤ, Bool, true, false, not, ◌||◌, is_positive, if◌then◌else◌}
use sakura_chat_server.Database.{Db}
use sakura_chat_server.Database.Sql.{Env, Conn, Sql, ◌>>=◌, pure, with_lease, catching}
use sakura_chat_server.Database.Triple.{
  Safe, idle, statement-idle, statement-ends, stop_if-Safe, Safe-bind,
}
use sakura_chat_server.Database.Leases.{Kept, Over, leased-Over}
use sakura_chat_server.Persistence.Privacy.{
  Action, block_check, by_policy, check_privacy, privacy_allows,
}

module _ (env : Env) (owner actor : ℤ) (action : Action) (P : Db → Type 0)
    (others : (n : ℕ) (d : Db) → P d → P (env.interfere n d)) where
  block_check-Kept :
      (same_user : Bool) (k : Bool → Sql Bool Bool) (d : Db) (n : ℕ)
      → P d
      → ((b : Bool) (d' : Db) (n' : ℕ) → P d' → Safe (Kept P) P (Kept P) (k b (idle d' n')))
      → Safe (Kept P) P (Kept P) ((block_check env owner actor same_user >>= k) (idle d n))
  unfolding block_check pure
  block_check-Kept true k d n p h =
      Safe-bind (Kept P) P (Kept P) (pure false) k (idle d n) (h false d n p)
  block_check-Kept false k d n p h =
      statement-idle (Kept P) P (Kept P) env _ k d n (others n d p) λ n'. h _ _ n' (others n d p)

  by_policy-Kept :
      (r : Bool) (policy : ℕ) (d : Db) (n : ℕ)
      → P d
      → Safe (Kept P) P (Kept P) (by_policy env owner actor r policy (idle d n))
  unfolding by_policy pure
  by_policy-Kept true policy d n p = p
  by_policy-Kept false policy d n p =
      stop_if-Safe (Kept P) P (Kept P) _ _ _ _ (λ _. p)
        λ _.
          stop_if-Safe (Kept P) P (Kept P) _ _ _ _ (λ _. p)
            λ _. statement-ends (Kept P) P (Kept P) env _ d n (others n d p) λ _. others n d p

  check_privacy-Kept :
      (d : Db) (n : ℕ)
      → P d
      → Safe (Kept P) P (Kept P) (check_privacy env owner actor action (idle d n))
  unfolding check_privacy
  check_privacy-Kept d n p = block_check-Kept _ _ d n p λ b d1 n1 p1.
      stop_if-Safe (Kept P) P (Kept P) _ _ _ _ (λ _. p1)
        λ _.
          stop_if-Safe (Kept P) P (Kept P) _ _ _ _ (λ _. p1)
            λ _.
              stop_if-Safe (Kept P) P (Kept P) _ _ _ _ (λ _. p1)
                λ _.
                  statement-idle (Kept P) P (Kept P) env _ _ d1 n1 (others n1 d1 p1)
                    λ n2. by_policy-Kept _ _ _ n2 (others n1 d1 p1)

  -- Whatever others keep, `PrivacyAllows` keeps, and it leaves no transaction open.
  pub privacy_allows-Over :
      (c : Conn) → Over P c → Over P (privacy_allows env owner actor action c).1
  unfolding privacy_allows catching
  privacy_allows-Over c v = go (not (is_positive owner) || not (is_positive actor))
    where
      go :
          (b : Bool)
          → Over P
              (if b
                then (false, c)
                else catching (with_lease env (check_privacy env owner actor action)) false c).1
      go true = v
      go false = leased-Over P env (check_privacy env owner actor action) c check_privacy-Kept v
