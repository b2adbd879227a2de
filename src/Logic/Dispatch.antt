-- ===== src/Logic/Dispatch.antt =====
-- Which messages reach a handler.
use sakura_chat_server.Prelude.{
  ℕ, ◌≡◌, ◌≢◌, ◌↔◌, ◌⊎◌, inl, inr, ap, Text, text_eq_iff, pos, int_eq, int_eq_iff, is_positive,
  Bool, true, false, not, ◌&&◌, ◌||◌, Option, none, some, none-ne-some, some-injective, ◌==◌,
  ==_iff, if◌then◌else◌, arith,
}
use sakura_chat_server.Session.{Session}
use sakura_chat_server.Logic.{
  Decision, skips, closes, calls, msg_chat_login, msg_logout, token_matches, is_registered, decide,
}

-- Who a message is dealt for: a login is for a session that has no user yet, and every other message
-- for one whose user is logged in with the token that Redis has. A closed session may only log out.
pub record MayCall (token : Option Text) (s : Session) (id : ℕ) : Type 0 where
  pub registered : is_registered id ≡ true
  pub open_or_logout : (s.closed ≡ false) ⊎ (id ≡ msg_logout)
  pub login : id ≡ msg_chat_login → s.user_id ≡ pos 0
  pub user : id ≢ msg_chat_login → is_positive s.user_id ≡ true
  pub authorized : id ≢ msg_chat_login → token ≡ some s.auth_digest

token_matches_iff :
    (token : Option Text) (digest : Text)
    → (token_matches token digest ≡ true) ↔ (token ≡ some digest)
token_matches_iff none digest =
    ((λ h. absurd (ground arith)), (λ h. absurd (none-ne-some digest h)))
token_matches_iff (some t) digest = (
  (λ h. ap (λ x. some x) ((text_eq_iff t digest).0 h)),
  (λ h. (text_eq_iff t digest).1 (some-injective t digest h)),
)

-- The tests of `decide`, as Booleans.
decided : (c o r l z p t : Bool) → Decision
decided c o r l z p t =
    if c && not o
    then skips
    else if not r || (if l then not z else not p)
    then closes
    else if not l && not t
    then closes
    else calls

tests_iff :
    (c o r l z p t : Bool)
    → (decided c o r l z p t ≡ calls) ↔ (
        (r ≡ true)
        × ((c ≡ false) ⊎ (o ≡ true))
        × (l ≡ true → z ≡ true)
        × (l ≡ false → p ≡ true)
        × (l ≡ false → t ≡ true))
unfolding decided
tests_iff c o r l z p t = ground arith

apart_iff : (a b : ℕ) → ((a == b) ≡ false) ↔ (a ≢ b)
apart_iff a b = ground arith

may_call :
    (token : Option Text) (s : Session) (id : ℕ) → decide token s id ≡ calls → MayCall token s id
unfolding decide decided
may_call token s id h =
    let t =
      (tests_iff s.closed (id == msg_logout) (is_registered id) (id == msg_chat_login)
          (int_eq s.user_id (pos 0)) (is_positive s.user_id) (token_matches token s.auth_digest)).0
        h in
    record {
      registered = t.0;
      open_or_logout = elim t.1 [ inl shut ↦ inl shut | inr o ↦ inr ((==_iff id msg_logout).0 o) ];
      login = λ e. (int_eq_iff s.user_id (pos 0)).0 (t.2 ((==_iff id msg_chat_login).1 e));
      user = λ e. t.3 ((apart_iff id msg_chat_login).1 e);
      authorized =
          λ e. (token_matches_iff token s.auth_digest).0 (t.4 ((apart_iff id msg_chat_login).1 e));
    }

called :
    (token : Option Text) (s : Session) (id : ℕ) → MayCall token s id → decide token s id ≡ calls
unfolding decide decided
called token s id m =
    (tests_iff s.closed (id == msg_logout) (is_registered id) (id == msg_chat_login)
        (int_eq s.user_id (pos 0)) (is_positive s.user_id) (token_matches token s.auth_digest)).1
      (
        m.registered,
        elim m.open_or_logout [ inl shut ↦ inl shut | inr o ↦ inr ((==_iff id msg_logout).1 o) ],
        (λ e. (int_eq_iff s.user_id (pos 0)).1 (m.login ((==_iff id msg_chat_login).0 e))),
        (λ e. m.user ((apart_iff id msg_chat_login).0 e)),
        (λ e.
            (token_matches_iff token s.auth_digest).1
              (m.authorized ((apart_iff id msg_chat_login).0 e))),
      )

-- A message reaches its handler exactly if it may: its id has a handler; its session is open, or it is
-- a logout; a login is of a session without a user; and any other message is of a session with a user
-- whose token in Redis is that of the session.
pub decide-calls_iff :
    (token : Option Text) (s : Session) (id : ℕ) → (decide token s id ≡ calls) ↔ MayCall token s id
decide-calls_iff token s id = (may_call token s id, called token s id)
