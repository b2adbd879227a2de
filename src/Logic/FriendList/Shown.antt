-- ===== src/Logic/FriendList/Shown.antt =====
-- Whose profiles a page of friends shows.
use sakura_chat_server.Prelude.{
  ◌+◌, ◌≡◌, Text, ℤ, pos, is_positive, is_negative, Bool, false, not, ◌||◌, Option, none, some,
  List, [], ◌∷◌, ◌++◌, length, is_empty, ltb, All, if_either,
}
use sakura_chat_server.Database.{Db}
use sakura_chat_server.Wire.{body_limit, uuid}
use sakura_chat_server.Persistence.{chat_database_failed}
use sakura_chat_server.Persistence.Privacy.{profile_policy}
use sakura_chat_server.Persistence.Privacy.Sound.{allowed}
use sakura_chat_server.Accounts.Users.Login.{Alone}
use sakura_chat_server.Accounts.Friends.{
  FriendInfo, FriendPageResult, no_friend_page, clamp_limit, friend_rows, friend_page_of,
  get_friend_page,
}
use sakura_chat_server.Accounts.Users.{with_sql}
use sakura_chat_server.Database.Sql
use sakura_chat_server.Database.Sql.{Conn, pure, query}
use sakura_chat_server.Logic.Handlers.{
  ChatState, Parts, Run, ◌>>=◌, give, on_conn, hidden, redact_profile,
}
use sakura_chat_server.Logic.Handlers.Quiet.{
  Still, redact_profile-Still, redact_profile-Hidden, asked-Still,
}
use sakura_chat_server.Logic.FriendList.{
  FriendRequest, FriendItem, FriendListResponse, FriendJson, no_friends, friend_profile,
  with_friend, cut_off, with_more, add_friends, list_page, list_after, list_request,
  get_friend_list,
}

-- The profile is blank if the tables do not allow the user to see it.
abbrev pub ShownTo : Db → ℤ → FriendItem → Type 0
ShownTo d uid item =
    allowed item.uid uid profile_policy d ≡ false → item.profile ≡ hidden item.profile

-- So is every profile of a response.
pub record Covered (d : Db) (uid : ℤ) (r : FriendListResponse) : Type 0 where
  pub items : All (ShownTo d uid) r.friend_list

All-snoc :
    {A : Type 0} (P : A → Type 0) (xs : List A) (a : A) → All P xs → P a → All P (xs ++ a ∷ [])
All-snoc P [] a h p = (p, tt)
All-snoc P (x ∷ xs) a (q, h) p = (q, All-snoc P xs a h p)

module _ {S : Type 0} (g : Parts S) (alone : Alone g.env) (json : FriendJson) (uid : ℤ)
    (d : Db) where
  add_friends-Covered :
      (rows : List FriendInfo) (more : Bool) (r : FriendListResponse) (s : ChatState S)
      → Covered d uid r
      → Still d s.conn
      → Covered d uid (add_friends g json uid rows more r s).0.0
  unfolding add_friends
  add_friends-Covered [] more r s h v = h
  add_friends-Covered (f ∷ rest) more r s h v =
      let (shown, s1) = on_conn (redact_profile g.env (friend_profile f) f.uid uid) s in
      let candidate = with_friend r f shown in
      if_either {A = Run S (FriendListResponse × Bool)} (λ m. Covered d uid (m s1).0.0)
        (ltb body_limit (json.size candidate)) (give (cut_off r more))
        (add_friends g json uid rest more candidate)
        (λ _.
          if_either {A = FriendListResponse × Bool} (λ o. Covered d uid o.0)
            (is_empty r.friend_list) _ _ (λ _. record { items = h.items }) (λ _. h))
        (λ _.
          add_friends-Covered rest more candidate s1
            (record {
              items =
                  All-snoc (ShownTo d uid) r.friend_list _ h.items
                    (redact_profile-Hidden g.env alone (friend_profile f) f.uid uid d s.conn v);
            })
            (redact_profile-Still g.env alone (friend_profile f) f.uid uid d s.conn v))

  get_friend_page-Still :
      (self after limit : ℤ) (c : Conn)
      → Still d c
      → Still d (get_friend_page g.env self after limit c).1
  unfolding get_friend_page
  get_friend_page-Still self after limit c v =
      if_either {A = FriendPageResult × Conn} (λ out. Still d out.1)
        (not (is_positive self) || is_negative after) (no_friend_page, c)
        (with_sql g.env no_friend_page no_friend_page
          (Sql.◌>>=◌ (query g.env (friend_rows self after (clamp_limit 10 limit + 1)))
            (λ rows. pure (friend_page_of (clamp_limit 10 limit) rows)))
          c)
        (λ _. v)
        (λ _.
          asked-Still g.env alone no_friend_page no_friend_page
            (friend_rows self after (clamp_limit 10 limit + 1))
            (friend_page_of (clamp_limit 10 limit)) d c v)

  list_page-Covered :
      (r : FriendListResponse) (page : FriendPageResult) (s : ChatState S)
      → Covered d uid r
      → Still d s.conn
      → Covered d uid (list_page g json uid r page s).0
  unfolding list_page
  list_page-Covered r page s h v =
      if_either {A = Run S FriendListResponse} (λ m. Covered d uid (m s).0) (not page.ok)
        (give (record r { error = chat_database_failed }))
        (add_friends g json uid page.items page.has_more (record r { error = 0 }) >>= λ out.
          give (with_more out))
        (λ _. record { items = h.items })
        (λ _.
          let c =
            add_friends-Covered page.items page.has_more (record r { error = 0 }) s
              (record { items = h.items }) v in
          record { items = c.items })

  list_after-Covered :
      (q : FriendRequest) (s : ChatState S)
      → Still d s.conn
      → Covered d uid (list_after g json uid q s).0
  unfolding list_after
  list_after-Covered q s v =
      let r : FriendListResponse = record no_friends {
        request_id = some q.request_id;
        after_uid = some q.after_uid;
        next_uid = some q.after_uid;
      } in
      if_either {A = Run S FriendListResponse} (λ m. Covered d uid (m s).0)
        (not (is_positive uid) || is_negative q.after_uid) (give r)
        (on_conn (get_friend_page g.env uid q.after_uid (pos 10)) >>= list_page g json uid r)
        (λ _. record { items = tt })
        (λ _.
          let (page, s1) = on_conn (get_friend_page g.env uid q.after_uid (pos 10)) s in
          list_page-Covered r page s1 (record { items = tt })
            (get_friend_page-Still uid q.after_uid (pos 10) s.conn v))

  list_request-Covered :
      (o : Option FriendRequest) (s : ChatState S)
      → Still d s.conn
      → Covered d uid (list_request g json uid o s).0
  unfolding list_request
  list_request-Covered none s v = record { items = tt }
  list_request-Covered (some q) s v =
      if_either {A = Run S FriendListResponse} (λ m. Covered d uid (m s).0)
        (not (uuid q.request_id)) (give no_friends) (list_after g json uid q)
        (λ _. record { items = tt }) (λ _. list_after-Covered q s v)

  -- When no other connection commits anything, and whichever calls fail: the profiles in a list of
  -- friends are blank where the tables do not allow the user to see them.
  pub get_friend_list-Covered :
      (body : Text) (s : ChatState S)
      → Still d s.conn
      → Covered d uid (get_friend_list g json uid body s).0
  unfolding get_friend_list
  get_friend_list-Covered body s v =
      if_either {A = Run S FriendListResponse} (λ m. Covered d uid (m s).0)
        (ltb body_limit (length body)) (give no_friends) (list_request g json uid (json.parse body))
        (λ _. record { items = tt }) (λ _. list_request-Covered (json.parse body) s v)
