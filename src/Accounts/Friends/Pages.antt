-- ===== src/Accounts/Friends/Pages.antt =====
-- The pages of friends that `GetFriendPage` (Common/src/MysqlDao.cpp) gives.
use mathlib.Core.List.{append-nil, append_assoc}
use sakura_chat_server.Prelude.{
  ℕ, zero, suc, ◌+◌, ◌≡◌, ◌≢◌, refl, sym, ap, ◌∙◌, ◌⊎◌, inl, inr, ℤ, is_positive, is_negative, Bool,
  true, false, not, ◌||◌, Option, none, some, none-ne-some, List, [], ◌∷◌, ◌++◌, take, length,
  length-append, ltb, ◌==◌, if◌then◌else◌, arith,
}
use sakura_chat_server.Database.{Db}
use sakura_chat_server.Database.Sql.{Env, ◌>>=◌, pure, query, statement}
use sakura_chat_server.Database.Triple.{idle}
use sakura_chat_server.Accounts.Users.{with_sql}
use sakura_chat_server.Accounts.Friends.{
  clamp_limit, FriendInfo, FriendPageResult, no_friend_page, friend_rows, collect_friends,
  friend_page_of, get_friend_page,
}

-- The loop from the items that are there, with room for some more.
collect_friends-room :
    (limit room : ℕ) (rows got : List FriendInfo)
    → length got + room ≡ limit
    → collect_friends limit rows (record { ok = false; has_more = false; items = got })
      ≡ record { ok = false; has_more = ltb room (length rows); items = got ++ take room rows }
unfolding collect_friends
collect_friends-room limit zero [] got h =
    ap (λ x. record { ok = false; has_more = false; items = x }) (sym (append-nil got))
collect_friends-room limit (suc room) [] got h =
    let none_left : ltb (suc room) 0 ≡ false = ground arith in
    rw none_left
      (ap (λ x. record { ok = false; has_more = false; items = x }) (sym (append-nil got)))
collect_friends-room limit zero (f ∷ rows) got h =
    let full : (length got == limit) ≡ true = ground arith in
    let more : ltb 0 (suc (length rows)) ≡ true = ground arith in
    rw (full, more)
      (ap (λ x. record { ok = false; has_more = true; items = x }) (sym (append-nil got)))
collect_friends-room limit (suc room) (f ∷ rows) got h =
    let open_ : (length got == limit) ≡ false = ground arith in
    let same : ltb (suc room) (suc (length rows)) ≡ ltb room (length rows) = ground arith in
    let rest =
      collect_friends-room limit room rows (got ++ f ∷ [])
        (omega (arith, length-append got (f ∷ []))) in
    rw (open_, same)
      (rest
        ∙ ap (λ x. record { ok = false; has_more = ltb room (length rows); items = x })
            (append_assoc got (f ∷ []) (take room rows)))

-- A page is what fits into the limit, and says whether there is more.
friend_page_of_lem :
    (limit : ℕ) (rows : List FriendInfo)
    → friend_page_of limit rows
      ≡ record { ok = true; has_more = ltb limit (length rows); items = take limit rows }
unfolding friend_page_of
friend_page_of_lem limit rows =
    ap {A = FriendPageResult} (λ x. record x { ok = true })
      (collect_friends-room limit limit rows [] (omega arith))

-- No page, for a reason, or the first rows of the friends after the cursor, in as many as the limit
-- lets through, at least 1 and at most 10, with `has_more` set exactly when more are left.
unfoldable pub Paged : ℕ → List FriendInfo → Type 0 → FriendPageResult → Type 0
Paged limit rows Reason page =
    (Reason × (page ≡ no_friend_page))
    ⊎ (page ≡ record { ok = true; has_more = ltb limit (length rows); items = take limit rows })

-- The database fails: it lends no connection, or the statement fails.
abbrev pub Failed : Env → ℕ → Type 0
Failed env n = (env.leases n ≡ false) ⊎ (env.fault (n + 1) ≢ none)

page_in_session :
    (env : Env) (self after : ℤ) (limit : ℕ) (d : Db) (n : ℕ)
    → Paged limit
        (friend_rows self after (limit + 1) (env.interfere (n + 1) d))
        ((is_positive self ≡ false) ⊎ ((is_negative after ≡ true) ⊎ Failed env n))
        (with_sql env no_friend_page no_friend_page
          (do
            rows ← query env (friend_rows self after (limit + 1))
            pure (friend_page_of limit rows))
          (idle d n)).0
unfolding Paged with_sql ◌>>=◌ statement pure
page_in_session env self after limit d n = go (env.leases n) (env.fault (n + 1)) refl refl
  where
    go :
        (b : Bool) (o : Option ℕ)
        → env.leases n ≡ b
        → env.fault (n + 1) ≡ o
        → Paged limit
            (friend_rows self after (limit + 1) (env.interfere (n + 1) d))
            ((is_positive self ≡ false) ⊎ ((is_negative after ≡ true) ⊎ Failed env n))
            (with_sql env no_friend_page no_friend_page
              (do
                rows ← query env (friend_rows self after (limit + 1))
                pure (friend_page_of limit rows))
              (idle d n)).0
    go false o w v = inl (inr (inr (inl w)), rw (with_sql, w) refl)
    go true none w v = inr (rw (with_sql, w, statement, v) (friend_page_of_lem limit _))
    go true (some code) w v =
        inl (
          inr (inr (inr (λ e. none-ne-some code (sym e ∙ v)))),
          rw (with_sql, w, statement, v) refl,
        )

-- Whatever others commit, `GetFriendPage` gives no page only for an invalid user or cursor or when the
-- database fails, and else the first friends after the cursor, at most the limit brought between
-- 1 and 10, with `has_more` set exactly when more are left.
pub get_friend_page-Paged :
    (env : Env) (self after limit : ℤ) (d : Db) (n : ℕ)
    → Paged
        (clamp_limit 10 limit)
        (friend_rows self after (clamp_limit 10 limit + 1) (env.interfere (n + 1) d))
        ((is_positive self ≡ false) ⊎ ((is_negative after ≡ true) ⊎ Failed env n))
        (get_friend_page env self after limit (idle d n)).0
unfolding get_friend_page Paged
get_friend_page-Paged env self after limit d n = go (is_positive self) (is_negative after) refl refl
  where
    go :
        (p q : Bool)
        → is_positive self ≡ p
        → is_negative after ≡ q
        → Paged
            (clamp_limit 10 limit)
            (friend_rows self after (clamp_limit 10 limit + 1) (env.interfere (n + 1) d))
            ((is_positive self ≡ false) ⊎ ((is_negative after ≡ true) ⊎ Failed env n))
            (if not p || q
              then (no_friend_page, idle d n)
              else with_sql env no_friend_page no_friend_page
                  (do
                    rows ← query env (friend_rows self after (clamp_limit 10 limit + 1))
                    pure (friend_page_of (clamp_limit 10 limit) rows))
                  (idle d n)).0
    go false q w v = inl (inl w, refl)
    go true true w v = inl (inr (inl v), refl)
    go true false w v = page_in_session env self after (clamp_limit 10 limit) d n
