-- ===== src/Registry/Logins.antt =====
-- What a new login does to the map of users, and what the end of the old session does not.
use sakura_chat_server.Prelude.{
  ◌≡◌, refl, sym, ap, ◌∙◌, Text, text_eq, ℤ, int_eq, int_eq_iff, int_eq_self, Bool, true, false,
  Option, none, some, some-injective, List, [], ◌∷◌, arith, if◌then◌else◌,
}
use sakura_chat_server.Registry.{
  Registry, find_user, put_user, erase_user, close_previous, close_session, set_user_session,
  rmv_user_session, clear_session, holds,
}

find_user-put_user :
    (uid : ℤ) (s : Text) (us : List (ℤ × Text)) → find_user uid (put_user uid s us) ≡ some s
unfolding find_user put_user
find_user-put_user uid s [] = ap (λ b. if b then some s else none) (int_eq_self uid)
find_user-put_user uid s ((u, t) ∷ rest) = go (int_eq u uid) refl (find_user-put_user uid s rest)
  where
    go :
        (b : Bool)
        → int_eq u uid ≡ b
        → find_user uid (put_user uid s rest) ≡ some s
        → find_user uid (if b then (u, s) ∷ rest else (u, t) ∷ put_user uid s rest) ≡ some s
    go true e h = ap (λ c. if c then some s else find_user uid rest) e
    go false e h = ap (λ c. if c then some t else find_user uid (put_user uid s rest)) e ∙ h

close_previous-users :
    (o : Option Text) (s : Text) (r : Registry) → (close_previous o s r).users ≡ r.users
unfolding close_previous close_session
close_previous-users none s r = refl
close_previous-users (some t) s r = go (text_eq t s)
  where
    go : (b : Bool) → (if b then r else close_session t r).users ≡ r.users
    go true = refl
    go false = refl

set_user_session-find :
    (uid : ℤ) (s : Text) (r : Registry)
    → (r.heap s).closed ≡ false
    → find_user uid (set_user_session uid s r).users ≡ some s
unfolding set_user_session
set_user_session-find uid s r open_ =
    ap
      (λ b.
        find_user uid
          (if b
            then r
            else close_previous (find_user uid r.users) s
                (record r { users = put_user uid s r.users })).users)
      open_
    ∙ (ap (find_user uid) (close_previous-users (find_user uid r.users) s _)
        ∙ find_user-put_user uid s r.users)

find_user-erased :
    (uid v : ℤ) (us : List (ℤ × Text)) (s : Text)
    → find_user uid us ≡ some s
    → int_eq v uid ≡ false
    → find_user uid (erase_user v us) ≡ some s
unfolding find_user erase_user
find_user-erased uid v [] s h e = h
find_user-erased uid v ((u, t) ∷ rest) s h e =
    go (int_eq u uid) (int_eq u v) refl refl h λ k. find_user-erased uid v rest s k e
  where
    apart : int_eq u uid ≡ true → int_eq u v ≡ true → int_eq v uid ≡ true
    apart f g = (int_eq_iff v uid).1 (sym ((int_eq_iff u v).0 g) ∙ (int_eq_iff u uid).0 f)

    go :
        (b c : Bool)
        → int_eq u uid ≡ b
        → int_eq u v ≡ c
        → (if b then some t else find_user uid rest) ≡ some s
        → (find_user uid rest ≡ some s → find_user uid (erase_user v rest) ≡ some s)
        → find_user uid (if c then rest else (u, t) ∷ erase_user v rest) ≡ some s
    go true true f g k ih = absurd (let w = apart f g in ground arith)
    go true false f g k ih = ap (λ z. if z then some t else find_user uid (erase_user v rest)) f ∙ k
    go false true f g k ih = k
    go false false f g k ih =
        ap (λ z. if z then some t else find_user uid (erase_user v rest)) f ∙ ih k

-- The end of one session never takes another session of the same user, or of another, out of the map.
pub clear_session-other :
    (uid : ℤ) (s old : Text) (r : Registry)
    → find_user uid r.users ≡ some s
    → text_eq s old ≡ false
    → find_user uid (clear_session old r).users ≡ some s
unfolding clear_session rmv_user_session
clear_session-other uid s old r found other = cleared (holds old r.sessions)
  where
    v : ℤ
    v = (r.heap old).user_id

    same_user :
        (t : Text)
        → find_user v r.users ≡ some t
        → (b : Bool) → int_eq v uid ≡ b
        → (c : Bool) → text_eq t old ≡ c
        → find_user uid (if c then record r { users = erase_user v r.users } else r).users ≡ some s
    same_user t f b e false g = found
    same_user t f false e true g = find_user-erased uid v r.users s found e
    same_user t f true e true g = absurd (
        let w =
          ap (λ x. text_eq x old)
            (some-injective s t
              (sym found ∙ (ap (λ z. find_user z r.users) (sym ((int_eq_iff v uid).0 e)) ∙ f))) in
        ground arith)

    removed :
        (o : Option Text)
        → find_user v r.users ≡ o
        → let out : Registry = elim o [
          | none ↦ r
          | some t ↦ if text_eq t old then record r { users = erase_user v r.users } else r
        ] in
          find_user uid out.users ≡ some s
    removed none f = found
    removed (some t) f = same_user t f (int_eq v uid) refl (text_eq t old) refl

    cleared : (b : Bool) → find_user uid (if b then rmv_user_session v old r else r).users ≡ some s
    cleared true = removed (find_user v r.users) refl
    cleared false = found

-- A login with an open session replaces the session of the user, and the end of any other session, when
-- it comes after that, leaves the new one in the map.
pub set_user_session-stays :
    (uid : ℤ) (s old : Text) (r : Registry)
    → (r.heap s).closed ≡ false
    → text_eq s old ≡ false
    → find_user uid (clear_session old (set_user_session uid s r)).users ≡ some s
set_user_session-stays uid s old r open_ other =
    clear_session-other uid s old (set_user_session uid s r) (set_user_session-find uid s r open_)
      other
