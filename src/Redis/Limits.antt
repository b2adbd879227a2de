-- ===== src/Redis/Limits.antt =====
-- How many requests of a window `RedisMgr::CheckRateLimit` allows.
use sakura_chat_server.Prelude.{
  ℕ, zero, suc, ◌+◌, ◌≡◌, refl, sym, ap, ◌∙◌, subst, Text, ℤ, pos, is_positive, is_negative, int_le,
  Bool, true, false, not, ◌||◌, some, List, [], ◌∷◌, ◌++◌, if◌then◌else◌, arith,
}
use sakura_chat_server.Redis.{
  Reply, array, number, Server, answered, World, with_connection, get_connection, return_connection,
  redis_command, request,
}
use sakura_chat_server.Redis.Scripts.{
  LimitState, allowed, limited, unavailable, RateLimitResult, counted_limit, limit_script,
  limit_reply, check_rate_limit,
}

-- What INCR and EXPIRE do to the counter of a key while time stands still.
pub record Counters {S : Type 0} (server : Server S) : Type 0 where
  pub count : Text → S → ℕ
  pub bumped : Text → S → S
  pub incr_some : (key : Text) (s : S) → server.incr key s ≡ some (count key s + 1, bumped key s)
  pub count_bumped : (key : Text) (s : S) → count key (bumped key s) ≡ count key s + 1
  pub count_expire :
      (key : Text) (seconds : ℤ) (s : S)
      → is_positive seconds ≡ true
      → count key (server.expire key seconds s) ≡ count key s

-- A world that lends a connection and answers every command.
abbrev pub ready : {S : Type 0} → ℕ → List ℕ → S → ℕ → World S
ready context rest s calls = record {
  pool = record { b_stop = false; connections = context ∷ rest };
  server = s;
  link = λ n. answered;
  calls = calls;
}

-- The world after `k` requests.
abbrev pub after_requests : {S : Type 0} → Server S → Text → ℤ → ℤ → ℕ → World S → World S
after_requests server key limit seconds zero w = w
after_requests server key limit seconds (suc k) w =
    after_requests server key limit seconds k (check_rate_limit server key limit seconds w).1

module _ {S : Type 0} (server : Server S) (laws : Counters server) (key : Text) (limit seconds : ℤ)
    (some_limit : is_positive limit ≡ true) (some_seconds : is_positive seconds ≡ true) where
  abbrev verdict_at : ℕ → LimitState
  verdict_at n = if int_le (pos n) limit then allowed else limited

  record Counted (s : S) (out : Reply × S) : Type 0 where
    verdict :
        (limit_reply server limit seconds (some out.0)).state ≡ verdict_at (laws.count key s + 1)
    counter : laws.count key out.1 ≡ laws.count key s + 1

  counted_limit-Counted :
      (s : S)
      → Counted s
          (counted_limit server key seconds s (some (laws.count key s + 1, laws.bumped key s)))
  unfolding counted_limit limit_reply
  counted_limit-Counted s = go (is_negative (server.ttl key (laws.bumped key s)))
    where
      go :
          (b : Bool)
          → let counted = laws.bumped key s in
            let n = laws.count key s + 1 in
            let out : Reply × S =
              if b
              then (array (number (pos n) ∷ number seconds ∷ []), server.expire key seconds counted)
              else (array (number (pos n) ∷ number (server.ttl key counted) ∷ []), counted) in
            Counted s out
      go true = record {
        verdict = refl;
        counter = laws.count_expire key seconds _ some_seconds ∙ laws.count_bumped key s;
      }
      go false = record { verdict = refl; counter = laws.count_bumped key s }

  limit_script-Counted : (s : S) → Counted s (limit_script server key seconds s)
  unfolding limit_script
  limit_script-Counted s =
      subst (λ o. Counted s (counted_limit server key seconds s o)) (sym (laws.incr_some key s))
        (counted_limit-Counted s)

  check_ready :
      (c : ℕ) (rest : List ℕ) (s : S) (n : ℕ)
      → check_rate_limit server key limit seconds (ready c rest s n) ≡ (
        limit_reply server limit seconds (some (limit_script server key seconds s).0),
        record (ready c rest (limit_script server key seconds s).1 (n + 1)) {
          pool = record { b_stop = false; connections = rest ++ c ∷ [] };
        },
      )
  unfolding check_rate_limit request with_connection get_connection return_connection redis_command
  check_ready c rest s n = go (not (is_positive limit) || not (is_positive seconds)) (ground arith)
    where
      go :
          (b : Bool)
          → b ≡ false
          → let none_made : RateLimitResult × World S =
              (record { state = unavailable; retry_after = pos 0 }, ready c rest s n) in
            (if b
              then none_made
              else request
                  (none_made.0)
                  (limit_script server key seconds)
                  (limit_reply server limit seconds)
                  (ready c rest s n))
            ≡ (
              limit_reply server limit seconds (some (limit_script server key seconds s).0),
              record (ready c rest (limit_script server key seconds s).1 (n + 1)) {
                pool = record { b_stop = false; connections = rest ++ c ∷ [] };
              },
            )
      go true e = absurd (ground arith)
      go false e = refl

  -- While time stands still and the server answers, after `k` requests under a key whose counter was
  -- `count`: the next request is allowed if its number `count + k + 1` is at most the limit, and
  -- limited otherwise.
  pub check_rate_limit-counts :
      (k c : ℕ) (rest : List ℕ) (s : S) (n : ℕ)
      → (check_rate_limit server key limit seconds
          (after_requests server key limit seconds k (ready c rest s n))).0.state
        ≡ verdict_at (laws.count key s + k + 1)
  check_rate_limit-counts zero c rest s n =
      ap (λ out. out.0.state) (check_ready c rest s n)
      ∙ (limit_script-Counted s).verdict
      ∙ ap verdict_at (omega arith)
  check_rate_limit-counts (suc k) c [] s n =
      ap
        (λ out.
          (check_rate_limit server key limit seconds
            (after_requests server key limit seconds k out.1)).0.state)
        (check_ready c [] s n)
      ∙ check_rate_limit-counts k c [] _ _
      ∙ ap verdict_at (omega (arith, (limit_script-Counted s).counter))
  check_rate_limit-counts (suc k) c (r ∷ rest) s n =
      ap
        (λ out.
          (check_rate_limit server key limit seconds
            (after_requests server key limit seconds k out.1)).0.state)
        (check_ready c (r ∷ rest) s n)
      ∙ check_rate_limit-counts k r (rest ++ c ∷ []) _ _
      ∙ ap verdict_at (omega (arith, (limit_script-Counted s).counter))
