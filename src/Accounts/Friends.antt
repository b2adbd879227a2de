-- ===== src/Accounts/Friends.antt =====
-- `FriendExists`, `AddFriendApply`, `GetPendingFriendApplies`, `ResolveFriendApply` and `GetFriendPage`
-- (Common/src/MysqlDao.cpp).
pub mod Mutual
pub mod Consent
pub mod Pages
use sakura_chat_server.Prelude.{
  ℕ, ◌+◌, Text, ℤ, pos, negsuc, Bool, true, false, not, ◌&&◌, ◌||◌, Option, none, some, List, [],
  ◌∷◌, ◌++◌, first, keep, take, length, ltb, leb, int_eq, int_le, is_positive, is_negative, ◌==◌,
  max, min, if◌then◌else◌,
}
use sakura_chat_server.Database.{User, Friend, FriendApply, Db, is_friend}
use sakura_chat_server.Database.Sql.{
  Env, Conn, Sql, ◌>>=◌, ◌>>◌, pure, stop, stop_if, statement, query,
}
use sakura_chat_server.Persistence.Paging.{sort_by}
use sakura_chat_server.Accounts.Procedures.{
  apply_friend, find_apply, is_apply, resolve_friend_apply,
}
use sakura_chat_server.Accounts.Users.{with_sql}

-- `FriendExists`
unfoldable pub friend_exists : Env → ℤ → ℤ → Conn → Bool × Conn
unfolding with_sql
friend_exists env self friend c =
    if not (is_positive self) || (not (is_positive friend) || int_eq self friend)
    then (false, c)
    else with_sql env false false (query env (is_friend self friend)) c

pub record FriendApplyResult : Type 0 where
  pub result : ℤ
  pub apply_id : ℕ

abbrev pub no_apply : FriendApplyResult
no_apply = record { result = negsuc 0; apply_id = 0 }

-- `COALESCE((SELECT id FROM friend_apply WHERE from_uid=? AND to_uid=?), 0)`
abbrev pub id_or_zero : Option FriendApply → ℕ
id_or_zero none = 0
id_or_zero (some a) = a.id

-- `AddFriendApply`
unfoldable pub add_friend_apply :
    Env → Option ℕ → ℤ → ℤ → Text → Text → Conn → FriendApplyResult × Conn
unfolding with_sql apply_friend is_apply
add_friend_apply env trouble from to descs back_name c =
    with_sql env no_apply no_apply
      (do
        result ← statement env (apply_friend trouble from to descs back_name)
        id ← query env (λ db. id_or_zero (first (is_apply from to) db.applies))
        pure (record { result = result; apply_id = id }))
      c

-- `std::clamp(limit, 1, high)`
abbrev pub clamp_limit : ℕ → ℤ → ℕ
clamp_limit high (pos n) = min (max n 1) high
clamp_limit high (negsuc n) = 1

pub record PendingFriendApplyInfo : Type 0 where
  pub apply_id : ℕ
  pub uid : ℤ
  pub name : Text
  pub nick : Text
  pub descs : Text
  pub icon : Text
  pub gender : ℕ
  pub status : ℕ

abbrev pub pending_cursor : PendingFriendApplyInfo → ℕ
pending_cursor item = item.apply_id

abbrev pub user_of : ℤ → List User → Option User
user_of uid = first (λ u. int_eq u.uid uid)

-- The join of the requests with their senders.
unfoldable pub pending_of : List User → List FriendApply → List PendingFriendApplyInfo
pending_of users [] = []
pending_of users (a ∷ rest) = elim (user_of a.from_uid users) [
  | none ↦ pending_of users rest
  | some u ↦
      record {
        apply_id = a.id;
        uid = a.from_uid;
        name = u.name;
        nick = u.nick;
        descs = a.descs;
        icon = u.icon;
        gender = u.gender;
        status = a.status;
      }
      ∷ pending_of users rest
]

-- `WHERE a.to_uid = ? AND a.status = 0 AND a.id > ? ORDER BY a.id ASC LIMIT ?`
unfoldable pub pending_rows : ℤ → ℕ → ℕ → Db → List PendingFriendApplyInfo
unfolding sort_by pending_of
pending_rows to after limit db = take limit (
    sort_by pending_cursor (
      pending_of db.users
        (keep (λ a. int_eq a.to_uid to && ((a.status == 0) && ltb after a.id)) db.applies)))

unfoldable pub pending_after : Env → ℤ → ℤ → ℤ → Conn → List PendingFriendApplyInfo × Conn
unfolding with_sql pending_rows
pending_after env to (negsuc n) limit c = ([], c)
pending_after env to (pos after) limit c =
    with_sql env [] [] (query env (pending_rows to after (clamp_limit 200 limit))) c

-- `GetPendingFriendApplies`; nothing is returned of a result that breaks off.
unfoldable pub get_pending_friend_applies :
    Env → ℤ → ℤ → ℤ → Conn → List PendingFriendApplyInfo × Conn
unfolding pending_after
get_pending_friend_applies env to after limit c =
    if not (is_positive to) then ([], c) else pending_after env to after limit c

pub record ResolveFriendApplyResult : Type 0 where
  pub result : ℤ
  pub from_uid : ℤ
  pub to_uid : ℤ

abbrev pub unresolved : ℤ → ResolveFriendApplyResult
unresolved result = record { result = result; from_uid = pos 0; to_uid = pos 0 }

-- The row of the request, or an early return.
unfoldable pub own_apply : ℤ → Option FriendApply → Sql ResolveFriendApplyResult FriendApply
own_apply actor none = stop (unresolved (negsuc 0))
own_apply actor (some a) = do stop_if (not (int_eq a.to_uid actor)) (unresolved (negsuc 0)); pure a

-- Only where the result is 0 are the two users named.
abbrev pub resolved : FriendApply → ℤ → ResolveFriendApplyResult
resolved a (pos n) =
    if n == 0
    then record { result = pos 0; from_uid = a.from_uid; to_uid = a.to_uid }
    else unresolved (pos n)
resolved a (negsuc n) = unresolved (negsuc n)

unfoldable pub resolve_in_session :
    Env → Option ℕ → ℕ → ℤ → Bool → Sql ResolveFriendApplyResult ResolveFriendApplyResult
unfolding own_apply find_apply resolve_friend_apply
resolve_in_session env trouble id actor agree = do
  row ← query env (λ db. find_apply id db.applies)
  a ← own_apply actor row
  result ← statement env (resolve_friend_apply trouble id actor agree)
  again ← query env (λ db. result)
  pure (resolved a again)

unfoldable pub resolve_id : Env → Option ℕ → ℤ → ℤ → Bool → Conn → ResolveFriendApplyResult × Conn
unfolding with_sql resolve_in_session
resolve_id env trouble (negsuc n) actor agree c = (unresolved (negsuc 0), c)
resolve_id env trouble (pos id) actor agree c =
    if (id == 0) || not (is_positive actor)
    then (unresolved (negsuc 0), c)
    else with_sql env (unresolved (negsuc 0)) (unresolved (negsuc 0))
        (resolve_in_session env trouble id actor agree) c

-- `ResolveFriendApply`
unfoldable pub resolve_friend_apply_method :
    Env → Option ℕ → ℤ → ℤ → Bool → Conn → ResolveFriendApplyResult × Conn
unfolding resolve_id
resolve_friend_apply_method env trouble id actor agree c = resolve_id env trouble id actor agree c

pub record FriendInfo : Type 0 where
  pub uid : ℤ
  pub name : Text
  pub nick : Text
  pub icon : Text
  pub remark : Text
  pub gender : ℕ

pub record FriendPageResult : Type 0 where
  pub ok : Bool
  pub has_more : Bool
  pub items : List FriendInfo

abbrev pub no_friend_page : FriendPageResult
no_friend_page = record { ok = false; has_more = false; items = [] }

-- The join of the friends with their accounts, of which only the active ones are shown.
unfoldable pub friends_of : List User → List Friend → List FriendInfo
friends_of users [] = []
friends_of users (f ∷ rest) =
    elim (first (λ u. int_eq u.uid f.friend_uid && (u.status == 0)) users) [
      | none ↦ friends_of users rest
      | some u ↦
          record {
            uid = u.uid;
            name = u.name;
            nick = u.nick;
            icon = u.icon;
            remark = f.remark;
            gender = u.gender;
          }
          ∷ friends_of users rest
    ]

-- The column `uid` is unsigned.
abbrev pub uid_cursor : FriendInfo → ℕ
uid_cursor item = elim item.uid [ pos n ↦ n | negsuc n ↦ 0 ]

-- `WHERE f.self_uid=? AND f.friend_uid>? AND u.status=0 ORDER BY f.friend_uid ASC LIMIT ?`
unfoldable pub friend_rows : ℤ → ℤ → ℕ → Db → List FriendInfo
unfolding sort_by friends_of
friend_rows self after limit db = take limit (
    sort_by uid_cursor (
      friends_of db.users
        (keep (λ f. int_eq f.self_uid self && not (int_le f.friend_uid after)) db.friends)))

-- The loop over the rows, of which one more than the limit is asked for.
unfoldable pub collect_friends : ℕ → List FriendInfo → FriendPageResult → FriendPageResult
collect_friends limit [] out = out
collect_friends limit (f ∷ rest) out =
    let more = collect_friends limit rest (record out { items = out.items ++ f ∷ [] }) in
    if length out.items == limit then record out { has_more = true } else more

unfoldable pub friend_page_of : ℕ → List FriendInfo → FriendPageResult
unfolding collect_friends
friend_page_of limit rows = record (collect_friends limit rows no_friend_page) { ok = true }

-- `GetFriendPage`
unfoldable pub get_friend_page : Env → ℤ → ℤ → ℤ → Conn → FriendPageResult × Conn
unfolding with_sql friend_rows friend_page_of
get_friend_page env self after limit c =
    if not (is_positive self) || is_negative after
    then (no_friend_page, c)
    else with_sql env no_friend_page no_friend_page
        (do
          rows ← query env (friend_rows self after (clamp_limit 10 limit + 1))
          pure (friend_page_of (clamp_limit 10 limit) rows))
        c
