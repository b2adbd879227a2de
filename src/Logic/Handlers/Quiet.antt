-- ===== src/Logic/Handlers/Quiet.antt =====
-- What the handlers' reads of the database leave as it was, and which profiles they show.
use sakura_chat_server.Prelude.{
  ℕ, ◌+◌, ◌≡◌, refl, sym, ap, ◌∙◌, subst, Text, ℤ, Bool, true, false, Option, none, some, [],
  if◌then◌else◌, Bool-cases, inl, inr,
}
use sakura_chat_server.Database.{Db}
use sakura_chat_server.Database.Sql.{
  Env, Conn, Flow, value, returns, raises, sql, Sql, ◌>>=◌, pure, proceed, statement, query,
}
use sakura_chat_server.Database.Triple.{idle}
use sakura_chat_server.Database.Leases.{Over}
use sakura_chat_server.Persistence.Privacy.{Action, profile_policy, privacy_allows}
use sakura_chat_server.Persistence.Privacy.Sound.{undisturbed, allowed, privacy_allows-allowed}
use sakura_chat_server.Persistence.Privacy.Reads.{privacy_allows-Over}
use sakura_chat_server.Accounts.Users.{with_sql}
use sakura_chat_server.Accounts.Users.Login.{Alone}
use sakura_chat_server.Logic.Handlers.{Profile, blank, hidden, redact_profile}

-- No transaction is open, and the tables are these.
abbrev pub Still : Db → Conn → Type 0
Still d = Over (λ e. e ≡ d)

pub Still-idle : (d : Db) (c : Conn) → Still d c → c ≡ idle d c.tick
Still-idle d c v = λ i. record { db = v.holds i; saved = v.none_open i; tick = c.tick }

module _ (env : Env) (alone : Alone env) where
  abbrev settled : Env
  settled = undisturbed env.fault env.commit_applied env.leases env.same

  settled-env : settled ≡ env
  settled-env = λ i. record {
    fault = env.fault;
    commit_applied = env.commit_applied;
    leases = env.leases;
    interfere = λ n d. sym (alone n d) i;
    same = env.same;
  }

  -- `PrivacyAllows` changes nothing, and allows what the tables allow.
  pub privacy_allows-Still :
      (owner actor : ℤ) (action : Action) (d : Db) (c : Conn)
      → Still d c
      → Still d (privacy_allows env owner actor action c).1
  privacy_allows-Still owner actor action d c v =
      privacy_allows-Over env owner actor action (λ e. e ≡ d) (λ n e p. alone n e ∙ p) c v

  pub privacy_allows-true :
      (owner actor : ℤ) (action : Action) (d : Db) (c : Conn)
      → Still d c
      → (privacy_allows env owner actor action c).0 ≡ true
      → allowed owner actor action d ≡ true
  privacy_allows-true owner actor action d c v h =
      privacy_allows-allowed env.fault env.commit_applied env.leases env.same owner actor action d
        c.tick
        (subst (λ e. (privacy_allows e owner actor action (idle d c.tick)).0 ≡ true)
          (sym settled-env)
          (subst (λ x. (privacy_allows env owner actor action x).0 ≡ true) (Still-idle d c v) h))

  pub privacy_allows-false :
      (owner actor : ℤ) (action : Action) (d : Db) (c : Conn)
      → Still d c
      → allowed owner actor action d ≡ false
      → (privacy_allows env owner actor action c).0 ≡ false
  privacy_allows-false owner actor action d c v h =
      elim (Bool-cases (privacy_allows env owner actor action c).0) [
        | inl e ↦ absurd (cc (privacy_allows-true owner actor action d c v e, h))
        | inr e ↦ e
      ]

  -- What is shown is hidden if the tables do not allow it.
  pub redact_profile-Still :
      (p : Profile) (owner actor : ℤ) (d : Db) (c : Conn)
      → Still d c
      → Still d (redact_profile env p owner actor c).1
  unfolding redact_profile
  redact_profile-Still p owner actor d c v = privacy_allows-Still owner actor profile_policy d c v

  pub redact_profile-hidden :
      (p : Profile) (owner actor : ℤ) (d : Db) (c : Conn)
      → Still d c
      → allowed owner actor profile_policy d ≡ false
      → (redact_profile env p owner actor c).0 ≡ hidden p
  unfolding redact_profile
  redact_profile-hidden p owner actor d c v h =
      ap (λ b. if b then p else hidden p) (privacy_allows-false owner actor profile_policy d c v h)

  -- So it is a profile that hides what it has.
  pub redact_profile-Hidden :
      (p : Profile) (owner actor : ℤ) (d : Db) (c : Conn)
      → Still d c
      → allowed owner actor profile_policy d ≡ false
      → let shown = (redact_profile env p owner actor c).0 in shown ≡ hidden shown
  redact_profile-Hidden p owner actor d c v h =
      let e = redact_profile-hidden p owner actor d c v h in e ∙ twice p ∙ ap hidden (sym e)
    where
      twice : (p : Profile) → hidden p ≡ hidden (hidden p)
      twice p = λ i. record { nick = []; icon = []; gender = 0; desc = again p.desc i }
        where
          again : (o : Option Text) → blank o ≡ blank (blank o)
          again none = refl
          again (some t) = refl

  -- A method keeps the tables if its block does.
  pub with_sql-Still :
      {R : Type 0} (missing failed : R) (m : Sql R R) (d : Db) (c : Conn)
      → ((n : ℕ) → Still d (m (idle d n)).1)
      → Still d c
      → Still d (with_sql env missing failed m c).1
  unfolding with_sql
  with_sql-Still {R} missing failed m d c h v =
      subst (λ x. Still d (with_sql env missing failed m x).1) (sym (Still-idle d c v))
        (go (env.leases c.tick))
    where
      go :
          (b : Bool)
          → let out : R × Conn = elim b [
            | false ↦ (missing, idle d (c.tick + 1))
            | true ↦
                let (r, c') = m (idle d (c.tick + 1)) in
                (elim r [ value a ↦ a | returns a ↦ a | raises e ↦ failed ], c')
          ] in
            Still d out.1
      go false = record { none_open = refl; holds = refl }
      go true = h (c.tick + 1)

  pub query-Still :
      (R : Type 0) {A : Type 0} (f : Db → A) (d : Db) (n : ℕ)
      → Still d (query {R = R} env f (idle d n)).1
  unfolding statement
  query-Still R {A} f d n = go (env.fault n)
    where
      go :
          (o : Option ℕ)
          → let out : Flow R A × Conn = elim o [
            | some code ↦ (raises (sql code), idle (env.interfere n d) (n + 1))
            | none ↦ (value (f (env.interfere n d)), idle (env.interfere n d) (n + 1))
          ] in
            Still d out.1
      go none = record { none_open = refl; holds = alone n d }
      go (some code) = record { none_open = refl; holds = alone n d }

  pub query-pure-Still :
      {R A : Type 0} (f : Db → A) (k : A → R) (d : Db) (n : ℕ)
      → Still d ((query {R = R} env f >>= λ a. pure (k a)) (idle d n)).1
  unfolding ◌>>=◌ pure
  query-pure-Still {R} {A} f k d n = go (query env f (idle d n)) (query-Still R f d n)
    where
      go : (out : Flow R A × Conn) → Still d out.1 → Still d (proceed out (λ a. pure (k a))).1
      go (value a, c) v = v
      go (returns r, c) v = v
      go (raises e, c) v = v

  -- A method that asks one question of the database.
  pub asked-Still :
      {R A : Type 0} (missing failed : R) (f : Db → A) (k : A → R) (d : Db) (c : Conn)
      → Still d c
      → Still d (with_sql env missing failed (query env f >>= λ a. pure (k a)) c).1
  asked-Still missing failed f k d c v =
      with_sql-Still missing failed (query env f >>= λ a. pure (k a)) d c (query-pure-Still f k d) v
