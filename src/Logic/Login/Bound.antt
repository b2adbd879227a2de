-- ===== src/Logic/Login/Bound.antt =====
-- Which sessions a login changes, and which handlers the next messages of a session reach.
use sakura_chat_server.Prelude.{
  ℕ, ◌≡◌, ◌≢◌, refl, sym, ap, ◌∙◌, subst, Text, ascii, text_eq, text_eq_iff, text_eq_self, ℤ, pos,
  is_positive, Bool, true, false, not, ◌||◌, Option, none, some, some-injective, List, [], ◌∷◌,
  ◌++◌, is_empty, length, ltb, if◌then◌else◌, if_either, inl, arith,
}
use sakura_chat_server.Database.{is_some}
use sakura_chat_server.Database.Sql.{Conn}
use sakura_chat_server.Session.{Session, Outcome, close}
use sakura_chat_server.Redis.{get, set, h_set}
use sakura_chat_server.Registry.{
  Registry, find_user, put_user, close_session, close_previous, set_user_session,
}
use sakura_chat_server.Status.{token_key, token_invalid}
use sakura_chat_server.Accounts.Users.{UserInfo, get_user}
use sakura_chat_server.Accounts.Friends.{PendingFriendApplyInfo, get_pending_friend_applies}
use sakura_chat_server.Logic.{is_registered, msg_chat_login, decide, calls}
use sakura_chat_server.Logic.Dispatch.{decide-calls_iff}
use sakura_chat_server.Logic.Handlers.{
  ChatState, Parts, Run, give, replied, only_closes, ◌>>=◌, on_redis, on_registry, on_conn, ip_key,
}
use sakura_chat_server.Logic.Login.{
  LoginRequest, LoginResponse, LoginJson, Answer, BaseInfo, unreadable, unknown_user, base_info,
  Account, raised, login_error, bind_session, store_info, base_of, get_base_info, apply_items,
  enter, greet, judge_token, log_in_session, login_handler,
}

-- The session has this user and token, and is as open as it was; no other session gets another user
-- or token.
pub record Entered (session : Text) (uid : ℤ) (digest : Text) (r r' : Registry) : Type 0 where
  pub user : (r'.heap session).user_id ≡ uid
  pub token : (r'.heap session).auth_digest ≡ digest
  pub as_open : (r'.heap session).closed ≡ (r.heap session).closed
  pub other_users : (t : Text) → t ≢ session → (r'.heap t).user_id ≡ (r.heap t).user_id
  pub other_tokens : (t : Text) → t ≢ session → (r'.heap t).auth_digest ≡ (r.heap t).auth_digest

text_eq_apart : (s t : Text) → s ≢ t → text_eq s t ≡ false
text_eq_apart s t h = ground (arith, text_eq_iff s t)

-- `Close` leaves the user and the token.
close_user : (s : Session) → (close s).0.user_id ≡ s.user_id
unfolding close
close_user s =
    if_either {A = Outcome} (λ out. out.0.user_id ≡ s.user_id) s.closed (s, []) _ (λ _. refl)
      (λ _. refl)

close_token : (s : Session) → (close s).0.auth_digest ≡ s.auth_digest
unfolding close
close_token s =
    if_either {A = Outcome} (λ out. out.0.auth_digest ≡ s.auth_digest) s.closed (s, []) _
      (λ _. refl) (λ _. refl)

-- Closing a session other than this one.
close-Entered :
    (session : Text) (uid : ℤ) (digest : Text) (r r' : Registry) (t : Text)
    → text_eq session t ≡ false
    → Entered session uid digest r r'
    → Entered session uid digest r (close_session t r')
unfolding close_session
close-Entered session uid digest r r' t apart v = record {
  user = ap (λ s. s.user_id) itself ∙ v.user;
  token = ap (λ s. s.auth_digest) itself ∙ v.token;
  as_open = ap (λ s. s.closed) itself ∙ v.as_open;
  other_users = λ x h. user_kept x ∙ v.other_users x h;
  other_tokens = λ x h. token_kept x ∙ v.other_tokens x h;
}
  where
    itself :
        (if text_eq session t then (close (r'.heap t)).0 else r'.heap session) ≡ r'.heap session
    itself = ap (λ b. if b then (close (r'.heap t)).0 else r'.heap session) apart

    user_kept :
        (x : Text)
        → (if text_eq x t then (close (r'.heap t)).0 else r'.heap x).user_id ≡ (r'.heap x).user_id
    user_kept x =
        if_either (λ s. s.user_id ≡ (r'.heap x).user_id) (text_eq x t) (close (r'.heap t)).0
          (r'.heap x)
          (λ e.
            close_user (r'.heap t) ∙ ap (λ y. (r'.heap y).user_id) (sym ((text_eq_iff x t).0 e)))
          (λ _. refl)

    token_kept :
        (x : Text)
        → (if text_eq x t then (close (r'.heap t)).0 else r'.heap x).auth_digest
          ≡ (r'.heap x).auth_digest
    token_kept x =
        if_either (λ s. s.auth_digest ≡ (r'.heap x).auth_digest) (text_eq x t) (close (r'.heap t)).0
          (r'.heap x)
          (λ e.
            close_token (r'.heap t)
            ∙ ap (λ y. (r'.heap y).auth_digest) (sym ((text_eq_iff x t).0 e)))
          (λ _. refl)

previous-Entered :
    (session : Text) (uid : ℤ) (digest : Text) (r r' : Registry) (o : Option Text)
    → Entered session uid digest r r'
    → Entered session uid digest r (close_previous o session r')
unfolding close_previous
previous-Entered session uid digest r r' none v = v
previous-Entered session uid digest r r' (some t) v =
    if_either (Entered session uid digest r) (text_eq t session) r' (close_session t r') (λ _. v)
      λ h.
        close-Entered session uid digest r r' t
          (ground (arith, text_eq_iff t session, text_eq_iff session t)) v

set_user_session-Entered :
    (session : Text) (uid : ℤ) (digest : Text) (r r' : Registry)
    → Entered session uid digest r r'
    → Entered session uid digest r (set_user_session uid session r')
unfolding set_user_session
set_user_session-Entered session uid digest r r' v =
    if_either (Entered session uid digest r) (r'.heap session).closed r' _ (λ _. v)
      λ _.
        previous-Entered session uid digest r (record r' { users = put_user uid session r'.users })
          (find_user uid r'.users)
          (record {
            user = v.user;
            token = v.token;
            as_open = v.as_open;
            other_users = v.other_users;
            other_tokens = v.other_tokens;
          })

bind_session-Entered :
    (session : Text) (uid : ℤ) (digest : Text) (r : Registry)
    → Entered session uid digest r (bind_session session uid digest r).1
unfolding bind_session
bind_session-Entered session uid digest r = record {
  user = ap (λ s. s.user_id) itself;
  token = ap (λ s. s.auth_digest) itself;
  as_open = ap (λ s. s.closed) itself;
  other_users = λ t h. ap (λ s. s.user_id) (other t h);
  other_tokens = λ t h. ap (λ s. s.auth_digest) (other t h);
}
  where
    bound : Session
    bound = record (r.heap session) { user_id = uid; auth_digest = digest }

    itself : ((bind_session session uid digest r).1.heap session) ≡ bound
    itself = ap (λ b. if b then bound else r.heap session) (text_eq_self session)

    other : (t : Text) → t ≢ session → (bind_session session uid digest r).1.heap t ≡ r.heap t
    other t h =
        ap (λ b. if b then record (r.heap t) { user_id = uid; auth_digest = digest } else r.heap t)
          (text_eq_apart t session h)

-- Whether the response has a list of requests, which is written last.
abbrev pub listed : Option LoginResponse → Bool
listed none = false
listed (some r) = is_some r.apply_list

abbrev pub lists : Answer → Bool
lists a = listed a.reply

module _ {S : Type 0} (g : Parts S) (json : LoginJson) (session : Text) where
  -- No session is changed, and no list is sent; or the session is bound to the user.
  data Greeted (uid : ℤ) (digest : Text) (r : Registry) (out : Answer × ChatState S) : Type 0 where
    unchanged : lists out.0 ≡ false → out.1.registry ≡ r → Greeted uid digest r out
    bound :
        lists out.0 ≡ true → Entered session uid digest r out.1.registry → Greeted uid digest r out

  -- What a login does: a body that is no request, or not one with the token that Redis has for the uid
  -- that it names, changes no session.
  pub data Logged (body : Text) (s : ChatState S) (out : Answer × ChatState S) : Type 0 where
    refused : lists out.0 ≡ false → out.1.registry ≡ s.registry → Logged body s out
    entered :
        (r : LoginRequest)
        → json.parse body ≡ some r
        → is_positive r.uid ≡ true
        → (get g.server (token_key g.to_string r.uid) s.redis).0 ≡ some (g.digest r.token)
        → lists out.0 ≡ true
        → Entered session r.uid (g.digest r.token) s.registry out.1.registry
        → Logged body s out

  apply_items_registry :
      (uid : ℤ) (l : List PendingFriendApplyInfo) (s : ChatState S)
      → (apply_items g json uid l s).1.registry ≡ s.registry
  unfolding apply_items ◌>>=◌
  apply_items_registry uid [] s = refl
  apply_items_registry uid (a ∷ rest) s = apply_items_registry uid rest _

  base_of_registry :
      (key : Text) (uid : ℤ) (cached : Option Text) (s : ChatState S)
      → (base_of g json key uid cached s).1.registry ≡ s.registry
  unfolding base_of store_info ◌>>=◌
  base_of_registry key uid (some t) s = refl
  base_of_registry key uid none s = go (get_user g.env uid s.conn)
    where
      go :
          (out : Option UserInfo × Conn)
          → (store_info g json key out.0 (record s { conn = out.1 })).1.registry ≡ s.registry
      go (none, c) = refl
      go (some u, c) = refl

  enter-Greeted :
      (uid : ℤ) (digest : Text) (a : Account) (count : Option ℤ) (s : ChatState S)
      → Greeted uid digest s.registry (enter g json session uid digest a count s)
  unfolding enter ◌>>=◌
  enter-Greeted uid digest a none s = unchanged refl refl
  enter-Greeted uid digest a (some count) s =
      let counted =
        on_redis (h_set g.server (ascii "_logincount") g.self_name (g.to_string (raised count)))
          s in
      let named =
        on_redis (set g.server (ip_key g.to_string uid) g.self_name)
          (on_registry (bind_session session uid digest) counted.1).1 in
      let held : ChatState S = record named.1 {
        registry = set_user_session uid session named.1.registry;
      } in
      let (applies, asked) =
        on_conn (get_pending_friend_applies g.env uid (pos 0) (pos 200)) held in
      bound refl (
        subst (Entered session uid digest s.registry) (sym (apply_items_registry uid applies asked))
          (set_user_session-Entered session uid digest s.registry _
            (bind_session-Entered session uid digest s.registry)))

  greet-Greeted :
      (uid : ℤ) (digest : Text) (info : BaseInfo) (s : ChatState S)
      → Greeted uid digest s.registry (greet g json session uid digest info s)
  unfolding greet ◌>>=◌
  greet-Greeted uid digest unreadable s = unchanged refl refl
  greet-Greeted uid digest unknown_user s = unchanged refl refl
  greet-Greeted uid digest (base_info a) s = enter-Greeted uid digest a _ _

  -- What is greeted was let in by its token.
  granted :
      (body : Text) (r : LoginRequest) (s0 : ChatState S) (out : Answer × ChatState S)
      → json.parse body ≡ some r
      → is_positive r.uid ≡ true
      → (get g.server (token_key g.to_string r.uid) s0.redis).0 ≡ some (g.digest r.token)
      → Greeted r.uid (g.digest r.token) s0.registry out
      → Logged body s0 out
  granted body r s0 out p w h (unchanged l e) = refused l e
  granted body r s0 out p w h (bound l v) = entered r p w h l v

  judge_token-Logged :
      (body : Text) (r : LoginRequest) (o : Option Text) (s0 s : ChatState S)
      → json.parse body ≡ some r
      → is_positive r.uid ≡ true
      → (get g.server (token_key g.to_string r.uid) s0.redis).0 ≡ o
      → s.registry ≡ s0.registry
      → Logged body s0 (judge_token g json session r o s)
  unfolding judge_token
  judge_token-Logged body r none s0 s p w h e = refused refl e
  judge_token-Logged body r (some value) s0 s p w h e =
      if_either {A = Run S Answer} (λ m. Logged body s0 (m s))
        (not (text_eq value (g.digest r.token))) (give (replied (login_error token_invalid)))
        (get_base_info g json key r.uid >>= greet g json session r.uid value) (λ _. refused refl e)
        λ same.
          let equal : value ≡ g.digest r.token =
            (text_eq_iff value (g.digest r.token)).0 (ground arith) in
          let (cached, asked) = on_redis (get g.server key) s in
          let (info, s1) = base_of g json key r.uid cached asked in
          let out = greet g json session r.uid value info s1 in
          let kept : s1.registry ≡ s0.registry = base_of_registry key r.uid cached asked ∙ e in
          granted body r s0 out p w (h ∙ ap (λ t. some t) equal) (
            subst (λ t. Greeted r.uid t s0.registry out) equal
              (subst (λ x. Greeted r.uid value x out) kept (greet-Greeted r.uid value info s1)))
    where
      key : Text
      key = ascii "_ubaseinfo" ++ g.to_string r.uid

  log_in_session-Logged :
      (body : Text) (o : Option LoginRequest) (s : ChatState S)
      → json.parse body ≡ o
      → Logged body s (log_in_session g json session o s)
  unfolding log_in_session
  log_in_session-Logged body none s p = refused refl refl
  log_in_session-Logged body (some r) s p =
      if_either {A = Run S Answer} (λ m. Logged body s (m s))
        (not (is_positive r.uid) || (is_empty r.token || ltb 256 (length r.token)))
        (give only_closes)
        (on_redis (get g.server (token_key g.to_string r.uid)) >>= judge_token g json session r)
        (λ _. refused refl refl)
        λ fits.
          let (value, s1) = on_redis (get g.server (token_key g.to_string r.uid)) s in
          judge_token-Logged body r value s s1 p (ground arith) refl refl

  -- A login changes no session and sends no list of requests, unless its body is a request with the
  -- token whose digest Redis has for the uid that it names. Then the list is sent, the session has that
  -- user and that token and is as open as it was, and no other session gets another user or token.
  pub login_handler-Logged :
      (body : Text) (s : ChatState S) → Logged body s (login_handler g json session body s)
  unfolding login_handler
  login_handler-Logged body s = log_in_session-Logged body (json.parse body) s refl

  may_go_on :
      (body : Text) (s : ChatState S) (out : Answer × ChatState S) (r : LoginRequest) (id : ℕ)
      → json.parse body ≡ some r
      → lists out.0 ≡ true
      → (s.registry.heap session).closed ≡ false
      → is_registered id ≡ true
      → id ≢ msg_chat_login
      → Logged body s out
      → decide (some (g.digest r.token)) (out.1.registry.heap session) id ≡ calls
  may_go_on body s out r id p l shut known other (refused n e) = absurd (cc)
  may_go_on body s out r id p l shut known other (entered r' p' w h n v) =
      let one : r' ≡ r = some-injective r' r (sym p' ∙ p) in
      let user : (out.1.registry.heap session).user_id ≡ r'.uid = v.user in
      (decide-calls_iff _ _ id).1 (record {
        registered = known;
        open_or_logout = inl (v.as_open ∙ shut);
        login = λ e. absurd (other e);
        user = λ e. ap is_positive user ∙ w;
        authorized =
            λ e. ap (λ x. some (g.digest x.token)) (sym one) ∙ ap (λ t. some t) (sym v.token);
      })

  -- After a login that was answered with the list of requests, on a session that was open, every
  -- message with a handler but another login is dealt with, as long as Redis has that token.
  pub login_handler-decide :
      (body : Text) (s : ChatState S) (r : LoginRequest) (id : ℕ)
      → json.parse body ≡ some r
      → lists (login_handler g json session body s).0 ≡ true
      → (s.registry.heap session).closed ≡ false
      → is_registered id ≡ true
      → id ≢ msg_chat_login
      → decide
          (some (g.digest r.token))
          ((login_handler g json session body s).1.registry.heap session)
          id
        ≡ calls
  login_handler-decide body s r id p l shut known other =
      may_go_on body s (login_handler g json session body s) r id p l shut known other
        (login_handler-Logged body s)
