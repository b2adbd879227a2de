-- ===== src/Gate/Logic/Authorised.antt =====
-- What a change of an account goes back to (GateServer/src/LogicSystem.cpp).
use sakura_chat_server.Prelude.{
  ℕ, ◌+◌, ◌*◌, ◌≡◌, refl, sym, subst, ◌⊎◌, inl, inr, Text, Bool, true, false, not, ◌&&◌, ◌||◌,
  Option, none, some, if_either, length, is_empty, text_eq, ascii, ltb, if◌then◌else◌,
}
use sakura_chat_server.Database.{Db}
use sakura_chat_server.Database.Sql.{Env, ◌>>=◌, pure, query, statement}
use sakura_chat_server.Database.Triple.{idle}
use sakura_chat_server.Passwords.{valid_password}
use sakura_chat_server.Redis.{World}
use sakura_chat_server.Redis.Scripts.{consume_code}
use sakura_chat_server.Accounts.Users.{with_sql, check_pwd}
use sakura_chat_server.Accounts.Users.Login.{Alone}
use sakura_chat_server.Gate.Logic.{
  Parts, GateRequest, GateResponse, Route, get_varifycode, user_register, reset_pwd, user_login,
  GateState, field, text_of, is_confirmed, code_key, send_code, log_in, consume_then, with_code,
  with_password, routed, within_limits, valid_email, limited_route, parsed_post, handle_account,
}

-- A method that only reads leaves the tables.
with_sql-reads :
    {A R : Type 0} (env : Env)
    → Alone env
    → (missing failed : R) (scan : Db → A) (f : A → R) (d : Db) (n : ℕ)
    → (with_sql env missing failed (query env scan >>= λ a. pure (f a)) (idle d n)).1.db ≡ d
unfolding with_sql ◌>>=◌ statement pure
with_sql-reads {A} {R} env alone missing failed scan f d n =
    go (env.leases n) (env.fault (n + 1)) refl refl
  where
    go :
        (b : Bool) (o : Option ℕ)
        → env.leases n ≡ b
        → env.fault (n + 1) ≡ o
        → (with_sql env missing failed (query env scan >>= λ a. pure (f a)) (idle d n)).1.db ≡ d
    go false o w v = rw (with_sql, w) refl
    go true none w v = rw (with_sql, w, statement, v) (alone (n + 1) d)
    go true (some code) w v = rw (with_sql, w, statement, v) (alone (n + 1) d)

-- A route that changes accounts, and which of the two it is.
abbrev pub Changes : Route → Bool → Type 0
Changes route true = route ≡ user_register
Changes route false = route ≡ reset_pwd

-- The request is within the limits of the gate, and carries a code that Redis accepts for its email in
-- the state which these limits leave, for a registration or a new password.
pub record Authorised {S : Type 0} (g : Parts S) (route : Route) (remote : Text) (w : World S)
    (request : Option GateRequest) : Type 0 where
  pub r : GateRequest
  pub registering : Bool
  pub read : request ≡ some r
  pub changes : Changes route registering
  pub allowed : (within_limits g route remote (text_of r.email) w).0 ≡ true
  pub accepted :
      (consume_code g.server
        (code_key registering (text_of r.email))
        (text_of r.varifycode)
        (within_limits g route remote (text_of r.email) w).1).0
      ≡ true

not-false : (b : Bool) → not b ≡ false → b ≡ true
not-false true h = refl
not-false false h = sym h

module _ {S : Type 0} (g : Parts S) (alone : Alone g.env) (request : Option GateRequest) (d : Db)
    (remote : Text) (w0 : World S) where
  -- The tables are as they were, or the request is authorised.
  record Kept (route : Route) (out : GateResponse × GateState S) : Type 0 where
    kept : (out.1.sql.db ≡ d) ⊎ Authorised g route remote w0 request

  same : {route : Route} {out : GateResponse × GateState S} → out.1.sql.db ≡ d → Kept route out
  same e = record { kept = inl e }

  abbrev state : World S → ℕ → ℕ → GateState S
  state w n draws = record { redis = w; sql = idle d n; draws = draws }

  -- The limits allow the request, and leave this state.
  record Within (route : Route) (r : GateRequest) (w : World S) : Type 0 where
    allowed : (within_limits g route remote (text_of r.email) w0).0 ≡ true
    left : (within_limits g route remote (text_of r.email) w0).1 ≡ w

  consume_then-Kept :
      (route : Route) (registering : Bool) (r : GateRequest) (name password : Text) (w : World S)
      (n draws : ℕ)
      → request ≡ some r
      → Changes route registering
      → Within route r w
      → Kept route (
          consume_then g registering name
            (text_of r.email)
            password
            (text_of r.varifycode)
            (state w n draws))
  unfolding consume_then
  consume_then-Kept route registering r name password w n draws e c l =
      let key = code_key registering (text_of r.email) in
      let consumed = consume_code g.server key (text_of r.varifycode) w in
      if_either (Kept route) (not consumed.0) _ _ (λ _. same refl)
        λ ok. record {
          kept = inr (record {
            r = r;
            registering = registering;
            read = e;
            changes = c;
            allowed = l.allowed;
            accepted =
                subst (λ x. (consume_code g.server key (text_of r.varifycode) x).0 ≡ true)
                  (sym l.left) (not-false consumed.0 ok);
          });
        }

  with_code-Kept :
      (route : Route) (registering : Bool) (r : GateRequest) (password : Text) (w : World S)
      (n draws : ℕ)
      → request ≡ some r
      → Changes route registering
      → Within route r w
      → Kept route (with_code g registering r (text_of r.email) password (state w n draws))
  unfolding with_code
  with_code-Kept route registering r password w n draws e c l =
      let name = if registering then r.username else r.user in
      let weak = not (valid_password password) || not (field r.varifycode 6) in
      if_either (Kept route) weak _ _ (λ _. same refl)
        λ _.
          if_either (Kept route) (not (field name 64)) _ _ (λ _. same refl)
            λ _.
              if_either (Kept route) (registering && not (is_confirmed r.confirm password)) _ _
                (λ _. same refl)
                λ _. consume_then-Kept route registering r (text_of name) password w n draws e c l

  log_in-Kept :
      (email password : Text) (w : World S) (n draws : ℕ)
      → Kept user_login (log_in g email password (state w n draws))
  unfolding log_in check_pwd
  log_in-Kept email password w n draws = same (with_sql-reads g.env alone _ _ _ _ d n)

  routed-Kept :
      (route : Route) (r : GateRequest) (w : World S) (n draws : ℕ)
      → request ≡ some r
      → Within route r w
      → Kept route (routed g route r (text_of r.email) (state w n draws))
  unfolding routed send_code with_password
  routed-Kept get_varifycode r w n draws e l =
      let purpose = text_of r.purpose in
      let unknown =
        not (text_eq purpose (ascii "register")) && not (text_eq purpose (ascii "reset")) in
      if_either (Kept get_varifycode) (not (field r.purpose 16)) _ _ (λ _. same refl)
        λ _. if_either (Kept get_varifycode) unknown _ _ (λ _. same refl) λ _. same refl
  routed-Kept user_register r w n draws e l =
      if_either (Kept user_register) (not (field r.password 128)) _ _ (λ _. same refl)
        λ _. with_code-Kept user_register true r (text_of r.password) w n draws e refl l
  routed-Kept reset_pwd r w n draws e l =
      if_either (Kept reset_pwd) (not (field r.passwd 128)) _ _ (λ _. same refl)
        λ _. with_code-Kept reset_pwd false r (text_of r.passwd) w n draws e refl l
  routed-Kept user_login r w n draws e l =
      if_either (Kept user_login) (not (field r.passwd 128)) _ _ (λ _. same refl)
        λ _. log_in-Kept (text_of r.email) (text_of r.passwd) w n draws

  limited_route-Kept :
      (route : Route) (r : GateRequest) (n draws : ℕ)
      → request ≡ some r
      → Kept route (limited_route g route r remote (text_of r.email) (state w0 n draws))
  unfolding limited_route
  limited_route-Kept route r n draws e =
      let limits = within_limits g route remote (text_of r.email) w0 in
      if_either (Kept route) (not limits.0) _ _ (λ _. same refl)
        λ ok.
          routed-Kept route r limits.1 n draws e
            (record { allowed = not-false limits.0 ok; left = refl })

  parsed_post-Kept :
      (route : Route) (parsed : Option GateRequest) (n draws : ℕ)
      → request ≡ parsed
      → Kept route (parsed_post g route remote parsed (state w0 n draws))
  unfolding parsed_post
  parsed_post-Kept route none n draws e = same refl
  parsed_post-Kept route (some r) n draws e =
      let unusable = not (valid_email (text_of r.email)) || is_empty remote in
      if_either (Kept route) (not (field r.email 254)) _ _ (λ _. same refl)
        λ _.
          if_either (Kept route) unusable _ _ (λ _. same refl)
            λ _. limited_route-Kept route r n draws e

-- As long as nobody else writes, a request to the gate leaves the tables as they are, or it is for a
-- registration or a new password, within the limits of the gate, and carries a code that Redis accepted
-- for that and for its email, in the state that the limits had left.
pub handle_account-Authorised :
    {S : Type 0} (g : Parts S)
    → Alone g.env
    → (parse : Text → Option GateRequest) (route : Route) (remote body : Text) (w : World S)
      (d : Db) (n draws : ℕ)
    → let s : GateState S = record { redis = w; sql = idle d n; draws = draws } in
      ((handle_account g parse route remote body s).1.sql.db ≡ d)
      ⊎ Authorised g route remote w (parse body)
unfolding handle_account
handle_account-Authorised g alone parse route remote body w d n draws =
    let out =
      if_either (Kept g alone (parse body) d remote w route) (ltb (16 * 1024) (length body)) _ _
        (λ _. same g alone (parse body) d remote w refl)
        (λ _. parsed_post-Kept g alone (parse body) d remote w route (parse body) n draws refl) in
    out.kept
