-- ===== src/Accounts/Friends/Mutual.antt =====
-- Friendships, as the procedure `resolve_friend_apply` (database/schema.sql) makes them.
use sakura_chat_server.Prelude.{
  ℕ, ◌≡◌, refl, sym, ap, ◌∙◌, Text, ℤ, pos, negsuc, int_eq, int_eq_iff, is_positive, Bool, true,
  false, not, ◌&&◌, ◌||◌, Option, none, some, List, [], ◌∷◌, map, first, arith, ◌+◌, ◌==◌,
  if◌then◌else◌,
}
use sakura_chat_server.Database.{Friend, FriendApply, Db, is_some}
use sakura_chat_server.Database.Sql.{Env, Conn, Sql, ◌>>=◌, pure, stop, stop_if}
use sakura_chat_server.Database.Triple.{Safe, committed, idle, statement-idle}
use sakura_chat_server.Database.Leases.{Kept}
use sakura_chat_server.Accounts.Users.{with_sql}
use sakura_chat_server.Accounts.Users.Kept.{with_sql-Kept}
use sakura_chat_server.Accounts.Friends.{
  ResolveFriendApplyResult, unresolved, own_apply, resolve_in_session, resolve_id,
  resolve_friend_apply_method,
}
use sakura_chat_server.Accounts.Procedures.{
  is_pair, put_friend, find_apply, settle_apply, resolve_found, resolve_friend_apply,
}

-- A row of `friend` from one user to another.
unfoldable pub befriends : ℤ → ℤ → List Friend → Bool
befriends a b fs = is_some (first (is_pair a b) fs)

-- A change of the rows that keeps who is whose friend.
befriends-map :
    (g : Friend → Friend) (a b : ℤ)
    → ((f : Friend) → is_pair a b (g f) ≡ is_pair a b f)
    → (fs : List Friend) → befriends a b (map g fs) ≡ befriends a b fs
unfolding befriends
befriends-map g a b h [] = refl
befriends-map g a b h (f ∷ fs) = ground (arith, h f, befriends-map g a b h fs)

remark-is_pair :
    (o : Bool) (s t : ℤ) (r : Text) (a b : ℤ) (f : Friend)
    → is_pair a b (if is_pair s t f && o then record f { remark = r } else f) ≡ is_pair a b f
unfolding is_pair
remark-is_pair o s t r a b f = ground arith

befriends-same :
    (s t a b : ℤ) (fs : List Friend)
    → int_eq s a ≡ true
    → int_eq t b ≡ true
    → befriends s t fs ≡ befriends a b fs
befriends-same s t a b fs p q =
    let e : s ≡ a = (int_eq_iff s a).0 p in let e' : t ≡ b = (int_eq_iff t b).0 q in rw (e, e') refl

absorbed : (x p q : Bool) → (p ≡ true → q ≡ true → x ≡ true) → x ≡ (x || (p && q))
absorbed true p q h = refl
absorbed false true true h = h refl refl
absorbed false true false h = refl
absorbed false false q h = refl

befriends-added :
    (s t : ℤ) (r : Text) (a b : ℤ) (fs : List Friend)
    → befriends a b (record { self_uid = s; friend_uid = t; remark = r } ∷ fs)
      ≡ (befriends a b fs || (int_eq s a && int_eq t b))
unfolding befriends is_pair
befriends-added s t r a b fs = ground arith

-- `INSERT ... ON DUPLICATE KEY UPDATE` adds the one friendship.
befriends-put_friend :
    (o : Bool) (s t : ℤ) (r : Text) (a b : ℤ) (fs : List Friend)
    → befriends a b (put_friend o s t r fs) ≡ (befriends a b fs || (int_eq s a && int_eq t b))
unfolding put_friend befriends
befriends-put_friend o s t r a b fs = go (befriends s t fs) refl
  where
    go :
        (h : Bool)
        → befriends s t fs ≡ h
        → befriends a b (
            if h
            then map (λ f. if is_pair s t f && o then record f { remark = r } else f) fs
            else record { self_uid = s; friend_uid = t; remark = r } ∷ fs)
          ≡ (befriends a b fs || (int_eq s a && int_eq t b))
    go true e =
        befriends-map (λ f. if is_pair s t f && o then record f { remark = r } else f) a b
          (remark-is_pair o s t r a b) fs
        ∙ absorbed (befriends a b fs) (int_eq s a) (int_eq t b)
            (λ p q. sym (befriends-same s t a b fs p q) ∙ e)
    go false e = befriends-added s t r a b fs

-- Friends are friends of each other.
abbrev pub Mutual : Db → Type 0
Mutual db = (a b : ℤ) → befriends a b db.friends ≡ befriends b a db.friends

-- The friendships after an agreement.
pub befriends-agreed :
    (a : FriendApply) (x y : ℤ) (fs : List Friend)
    → befriends x y (
        put_friend false a.to_uid a.from_uid []
          (put_friend true a.from_uid a.to_uid a.back_name fs))
      ≡ ((befriends x y fs || (int_eq a.from_uid x && int_eq a.to_uid y))
          || (int_eq a.to_uid x && int_eq a.from_uid y))
befriends-agreed a x y fs =
    befriends-put_friend false a.to_uid a.from_uid [] x y
      (put_friend true a.from_uid a.to_uid a.back_name fs)
    ∙ ap (λ z. z || (int_eq a.to_uid x && int_eq a.from_uid y))
        (befriends-put_friend true a.from_uid a.to_uid a.back_name x y fs)

mirrored :
    (x y p q r s : Bool) → x ≡ y → ((x || (p && q)) || (r && s)) ≡ ((y || (s && r)) || (q && p))
mirrored true y p q r s e = ground arith
mirrored false y p q r s e = ground arith

settle_apply-Mutual :
    (a : FriendApply) (agree : Bool) (db : Db) → Mutual db → Mutual (settle_apply a agree db)
unfolding settle_apply
settle_apply-Mutual a false db h = h
settle_apply-Mutual a true db h = λ x y.
    befriends-agreed a x y db.friends
    ∙ mirrored _ _ (int_eq a.from_uid x) (int_eq a.to_uid y) (int_eq a.to_uid x)
        (int_eq a.from_uid y) (h x y)
    ∙ sym (befriends-agreed a y x db.friends)

resolve_friend_apply-Mutual :
    (trouble : Option ℕ) (id : ℕ) (actor : ℤ) (agree : Bool) (db : Db)
    → Mutual db
    → Mutual (resolve_friend_apply trouble id actor agree db).1
unfolding resolve_friend_apply resolve_found
resolve_friend_apply-Mutual trouble id actor agree db h = go (find_apply id db.applies)
  where
    tested :
        (a : FriendApply) (b : Bool) (o : Option ℕ)
        → Mutual (
            let out : ℤ × Db = if b then (negsuc 0, db) else elim o [
              | none ↦ (pos 0, settle_apply a agree db)
              | some code ↦ (negsuc 0, db)
            ] in
            out.1)
    tested a true o = h
    tested a false none = settle_apply-Mutual a agree db h
    tested a false (some code) = h

    go : (row : Option FriendApply) → Mutual (resolve_found trouble row actor agree db).1
    go none = h
    go (some a) = tested a (not (int_eq a.to_uid actor) || not (a.status == 0)) trouble

module _ (env : Env) (others : (n : ℕ) (d : Db) → Mutual d → Mutual (env.interfere n d))
    (trouble : Option ℕ) (actor : ℤ) (agree : Bool) where
  own_apply-Mutual :
      (row : Option FriendApply)
      (f : FriendApply → Sql ResolveFriendApplyResult ResolveFriendApplyResult) (d : Db) (n : ℕ)
      → Mutual d
      → ((a : FriendApply) → Safe (Kept Mutual) Mutual (Kept Mutual) (f a (idle d n)))
      → Safe (Kept Mutual) Mutual (Kept Mutual) ((own_apply actor row >>= f) (idle d n))
  unfolding own_apply ◌>>=◌ stop stop_if pure
  own_apply-Mutual none f d n p h = p
  own_apply-Mutual (some a) f d n p h = go (int_eq a.to_uid actor) (h a)
    where
      go :
          (b : Bool)
          → Safe (Kept Mutual) Mutual (Kept Mutual) (f a (idle d n))
          → Safe
              (Kept Mutual)
              Mutual
              (Kept Mutual)
              (((stop_if (not b) (unresolved (negsuc 0)) >>= λ _. pure a) >>= f) (idle d n))
      go true k = k
      go false k = p

  resolve_in_session-Mutual :
      (id : ℕ) (d : Db) (n : ℕ)
      → Mutual d
      → Safe
          (Kept Mutual)
          Mutual
          (Kept Mutual)
          (resolve_in_session env trouble id actor agree (idle d n))
  unfolding resolve_in_session pure
  resolve_in_session-Mutual id d n p =
      let p1 = others n d p in
      statement-idle (Kept Mutual) Mutual (Kept Mutual) env _ _ d n p1 λ n1.
        own_apply-Mutual (find_apply id (env.interfere n d).applies) _ _ n1 p1 λ a.
          let p2 = others n1 _ p1 in
          let p3 = resolve_friend_apply-Mutual trouble id actor agree _ p2 in
          statement-idle (Kept Mutual) Mutual (Kept Mutual) env _ _ _ n1 p2 λ n2.
            statement-idle (Kept Mutual) Mutual (Kept Mutual) env _ _ _ n2 (others n2 _ p3)
              λ n3. others n2 _ p3

  -- Friends stay friends of each other, whatever the request and its answer are, whichever call fails
  -- and whatever others commit as long as that keeps it.
  pub resolve_friend_apply_method-Mutual :
      (id : ℤ) (d : Db) (n : ℕ)
      → Mutual d
      → Mutual (committed (resolve_friend_apply_method env trouble id actor agree (idle d n)).1)
  unfolding resolve_friend_apply_method resolve_id
  resolve_friend_apply_method-Mutual (negsuc m) d n p = p
  resolve_friend_apply_method-Mutual (pos id) d n p = go ((id == 0) || not (is_positive actor))
    where
      go :
          (b : Bool)
          → let out : ResolveFriendApplyResult × Conn =
              if b
              then (unresolved (negsuc 0), idle d n)
              else with_sql env
                  (unresolved (negsuc 0))
                  (unresolved (negsuc 0))
                  (resolve_in_session env trouble id actor agree)
                  (idle d n) in
            Mutual (committed out.1)
      go true = p
      go false =
          with_sql-Kept Mutual env (unresolved (negsuc 0)) (unresolved (negsuc 0))
            (resolve_in_session env trouble id actor agree) d n p
            (resolve_in_session-Mutual id d (n + 1) p)
