-- ===== src/Persistence/Privacy/Sound.antt =====
-- What `PrivacyAllows` says and what the tables allow, also when the database fails.
use sakura_chat_server.Prelude.{
  ℕ, ◌+◌, ◌≡◌, refl, ap, ◌∙◌, Text, ℤ, Bool, true, false, not, ◌&&◌, ◌||◌, Option, int_eq,
  is_positive, ◌==◌, if◌then◌else◌, arith,
}
use sakura_chat_server.Database.{Db, blocked_between, is_friend}
use sakura_chat_server.Database.Sql.{
  Env, Conn, Flow, other, value, returns, raises, Sql, ◌>>=◌, pure, with_lease, catching, undo,
}
use sakura_chat_server.Database.Triple.{
  Safe, idle, statement-idle, statement-ends, stop_if-Safe, Safe-bind,
}
use sakura_chat_server.Persistence.Privacy.{
  Action, is_message, is_read_receipts, is_unknown, policy_of, block_check, by_policy,
  check_privacy, privacy_allows,
}

-- Whose statements may fail, but whom no one disturbs.
abbrev pub undisturbed : (ℕ → Option ℕ) → (ℕ → Bool) → (ℕ → Bool) → (Text → Text → Bool) → Env
undisturbed fault applied leases same = record {
  fault = fault;
  commit_applied = applied;
  leases = leases;
  interfere = λ n d. d;
  same = same;
}

-- What the tables allow: nobody who is blocked, either way; a message and one's own profile always;
-- read receipts unless they are off; and else by the policy: everyone, friends or nobody.
abbrev pub by_tables : ℤ → ℤ → Action → Db → Bool
by_tables owner actor action d =
    if is_read_receipts action
    then not (policy_of owner action d == 0)
    else (policy_of owner action d == 0)
      || (not (policy_of owner action d == 2) && is_friend owner actor d)

abbrev pub allowed : ℤ → ℤ → Action → Db → Bool
allowed owner actor action d =
    (is_positive owner && is_positive actor)
    && ((int_eq owner actor || not (blocked_between owner actor d))
        && ((is_message action || (int_eq owner actor && not (is_read_receipts action)))
            || (not (is_unknown action) && by_tables owner actor action d)))

by_policy_allows :
    (p e k m r u z t f : Bool)
    → p ≡ true
    → (e || not k) ≡ true
    → u ≡ false
    → (if r then not z else (z || (not t && f))) ≡ true
    → (p
        && ((e || not k)
            && ((m || (e && not r)) || (not u && (if r then not z else (z || (not t && f)))))))
      ≡ true
by_policy_allows p e k m r u z t f h1 h2 h3 h4 = ground arith

at_once_allows :
    (p e k m r u x : Bool)
    → p ≡ true
    → (e || not k) ≡ true
    → (m || (e && not r)) ≡ true
    → (p && ((e || not k) && ((m || (e && not r)) || (not u && x)))) ≡ true
at_once_allows p e k m r u x h1 h2 h3 = ground arith

module _ (fault : ℕ → Option ℕ) (applied leases : ℕ → Bool) (same : Text → Text → Bool)
    (owner actor : ℤ) (action : Action) (d : Db) where
  abbrev env : Env
  env = undisturbed fault applied leases same

  -- A yes is what the tables allow.
  abbrev Right : Bool → Conn → Type 0
  Right b c = b ≡ true → allowed owner actor action d ≡ true

  abbrev Any : Db → Type 0
  Any e = Unit

  by_policy-Right :
      (r : Bool) (n : ℕ)
      → is_positive owner && is_positive actor ≡ true
      → (int_eq owner actor || not (blocked_between owner actor d)) ≡ true
      → is_unknown action ≡ false
      → is_read_receipts action ≡ r
      → Safe Right Any Right (by_policy env owner actor r (policy_of owner action d) (idle d n))
  unfolding by_policy pure
  by_policy-Right r n p b u e = go r e
    where
      allows : by_tables owner actor action d ≡ true → allowed owner actor action d ≡ true
      allows w =
          by_policy_allows (is_positive owner && is_positive actor) (int_eq owner actor)
            (blocked_between owner actor d) (is_message action) (is_read_receipts action)
            (is_unknown action) (policy_of owner action d == 0) (policy_of owner action d == 2)
            (is_friend owner actor d) p b u w

      table :
          (x : Bool)
          → is_read_receipts action ≡ x
          → (if x
              then not (policy_of owner action d == 0)
              else ((policy_of owner action d == 0)
                  || (not (policy_of owner action d == 2) && is_friend owner actor d)))
            ≡ true
          → by_tables owner actor action d ≡ true
      table x eq w =
          ap
            (λ y.
              if y
              then not (policy_of owner action d == 0)
              else ((policy_of owner action d == 0)
                  || (not (policy_of owner action d == 2) && is_friend owner actor d)))
            eq
          ∙ w

      go :
          (x : Bool)
          → is_read_receipts action ≡ x
          → Safe Right Any Right (by_policy env owner actor x (policy_of owner action d) (idle d n))
      go true eq = λ w. allows (table true eq w)
      go false eq =
          stop_if-Safe Right Any Right _ _ _ _
            (λ zero_policy w. allows (table false eq (ground arith)))
            λ nonzero.
              stop_if-Safe Right Any Right _ _ _ _ (λ two w. absurd (ground arith))
                λ not_two.
                  statement-ends Right Any Right _ _ _ _ tt
                    λ n' w. allows (table false eq (ground arith))

  block_check-Right :
      (same_user : Bool) (k : Bool → Sql Bool Bool) (n : ℕ)
      → int_eq owner actor ≡ same_user
      → ((b : Bool) (n' : ℕ)
          → (b ≡ false → (int_eq owner actor || not (blocked_between owner actor d)) ≡ true)
          → Safe Right Any Right (k b (idle d n')))
      → Safe Right Any Right ((block_check env owner actor same_user >>= k) (idle d n))
  unfolding block_check pure
  block_check-Right true k n e h =
      Safe-bind Right Any Right (pure false) k (idle d n) (h false n (λ _. ground arith))
  block_check-Right false k n e h =
      statement-idle Right Any Right env _ k d n tt λ n'. h _ n' (λ u. ground arith)

  check_privacy-Right :
      (n : ℕ)
      → is_positive owner && is_positive actor ≡ true
      → Safe Right Any Right (check_privacy env owner actor action (idle d n))
  unfolding check_privacy
  check_privacy-Right n p = block_check-Right _ _ n refl λ blocked n1 clear.
      stop_if-Safe Right Any Right _ _ _ _ (λ _ w. absurd (ground arith))
        λ unblocked.
          stop_if-Safe Right Any Right _ _ _ _
            (λ at_once w.
              at_once_allows _ _ _ _ _ (is_unknown action) (by_tables owner actor action d) p
                (clear unblocked) at_once)
            λ later.
              stop_if-Safe Right Any Right _ _ _ _ (λ _ w. absurd (ground arith))
                λ known.
                  statement-idle Right Any Right env _ _ d n1 tt
                    λ n2. by_policy-Right _ n2 p (clear unblocked) known refl

  caught : Flow Bool Bool → Bool
  caught (value a) = a
  caught (returns a) = a
  caught (raises e) = false

  caught-Right :
      (out : Flow Bool Bool × Conn)
      → Safe Right Any Right out
      → caught out.0 ≡ true
      → allowed owner actor action d ≡ true
  unfolding caught
  caught-Right (value a, c) h w = h w
  caught-Right (returns a, c) h w = h w
  caught-Right (raises e, c) h w = absurd (ground arith)

  leased-Right :
      (n : ℕ)
      → is_positive owner && is_positive actor ≡ true
      → (catching (with_lease env (check_privacy env owner actor action)) false (idle d n)).0 ≡ true
      → allowed owner actor action d ≡ true
  unfolding catching with_lease caught
  leased-Right n p w = go (leases n) w
    where
      out : Flow Bool Bool × Conn
      out = check_privacy env owner actor action (idle d (n + 1))

      go :
          (b : Bool)
          → let leased : Flow Bool Bool × Conn = elim b [
            | false ↦ (raises other, idle d (n + 1))
            | true ↦ (out.0, undo out.1)
          ] in
            caught leased.0 ≡ true → allowed owner actor action d ≡ true
      go false e = absurd (ground arith)
      go true e = caught-Right out (check_privacy-Right (n + 1) p) e

  -- When no other connection commits anything, and whichever calls fail: if `PrivacyAllows` says yes,
  -- the tables allow it. A failure is always a no.
  pub privacy_allows-allowed :
      (n : ℕ)
      → (privacy_allows env owner actor action (idle d n)).0 ≡ true
      → allowed owner actor action d ≡ true
  unfolding privacy_allows
  privacy_allows-allowed n w = go (not (is_positive owner) || not (is_positive actor)) refl w
    where
      go :
          (b : Bool)
          → (not (is_positive owner) || not (is_positive actor)) ≡ b
          → (if b
              then (false, idle d n)
              else catching
                  (with_lease env (check_privacy env owner actor action))
                  false
                  (idle d n)).0
            ≡ true
          → allowed owner actor action d ≡ true
      go true e h = absurd (ground arith)
      go false e h = leased-Right n (ground arith) h
