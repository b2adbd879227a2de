-- ===== src/Accounts/Procedures.antt =====
-- The stored procedures `reg_user`, `apply_friend` and `resolve_friend_apply` of database/schema.sql.
-- `trouble` is the code of an error that the handlers of a procedure catch, after which its
-- transaction is rolled back.
use sakura_chat_server.Prelude.{
  ℕ, ◌+◌, Text, ℤ, pos, negsuc, Bool, true, false, not, ◌&&◌, ◌||◌, Option, none, some, List, [],
  ◌∷◌, first, map, is_empty, leb, ltb, int_eq, ◌==◌, if◌then◌else◌,
}
use sakura_chat_server.Database.{User, Friend, FriendApply, Db, is_some, is_friend}

-- `TRIM`
unfoldable pub trim_start : Text → Text
trim_start [] = []
trim_start (c ∷ cs) = let rest = trim_start cs in if c == b' ' then rest else c ∷ cs

unfoldable pub trim_end : Text → Text
trim_end [] = []
trim_end (c ∷ cs) = let rest = trim_end cs in if (c == b' ') && is_empty rest then [] else c ∷ rest

unfoldable pub trim : Text → Text
unfolding trim_start trim_end
trim t = trim_end (trim_start t)

-- `name` or `email` of the new user under the comparison of the collation.
unfoldable pub is_taken : (Text → Text → Bool) → Text → Text → List User → Bool
is_taken same name email users = is_some (first (λ u. same u.name name || same u.email email) users)

unfoldable pub insert_user : ℕ → Text → Text → Text → Db → Db
insert_user uid name email pwd db = record db {
  users =
      record {
        uid = pos uid;
        name = name;
        email = email;
        pwd = pwd;
        nick = name;
        desc = [];
        gender = 0;
        icon = [];
        status = 0;
      }
      ∷ db.users;
  last_uid = uid;
}

-- The transaction of `reg_user`. The uid may be at most 2147483647, and less by a check of the table.
unfoldable pub new_user : (Text → Text → Bool) → Text → Text → Text → Db → ℤ × Db
unfolding is_taken insert_user
new_user same name email pwd db =
    if is_taken same name email db.users
    then (pos 0, db)
    else if ltb 2147483647 (db.last_uid + 1) || leb 2147483647 (db.last_uid + 1)
    then (negsuc 0, db)
    else (pos (db.last_uid + 1), insert_user (db.last_uid + 1) name email pwd db)

-- What an error in `reg_user` gives: 1062 is that of a duplicate.
abbrev pub reg_user_trouble : ℕ → ℤ
reg_user_trouble code = if code == 1062 then pos 0 else negsuc 0

-- `reg_user`; `lower` is `LOWER`.
unfoldable pub reg_user :
    (Text → Text → Bool) → (Text → Text) → Option ℕ → Text → Text → Text → Db → ℤ × Db
unfolding new_user trim
reg_user same lower trouble name email pwd db =
    if is_empty (trim name) || (is_empty (trim email) || is_empty pwd)
    then (negsuc 0, db)
    else elim trouble [
      | none ↦ new_user same (trim name) (lower (trim email)) pwd db
      | some code ↦ (reg_user_trouble code, db)
    ]

unfoldable pub is_active_user : ℤ → List User → Bool
is_active_user uid users = is_some (first (λ u. int_eq u.uid uid && (u.status == 0)) users)

unfoldable pub is_apply : ℤ → ℤ → FriendApply → Bool
is_apply from to a = int_eq a.from_uid from && int_eq a.to_uid to

abbrev pub renewed : Text → Text → FriendApply → FriendApply
renewed descs back_name a = record a { status = 0; descs = descs; back_name = back_name }

-- `INSERT INTO friend_apply ... ON DUPLICATE KEY UPDATE`
unfoldable pub put_apply : ℤ → ℤ → Text → Text → Db → Db
unfolding is_apply
put_apply from to descs back_name db = record db {
  applies =
      if is_some (first (is_apply from to) db.applies)
      then map (λ a. if is_apply from to a then renewed descs back_name a else a) db.applies
      else record {
        id = db.next_apply;
        from_uid = from;
        to_uid = to;
        status = 0;
        descs = descs;
        back_name = back_name;
      }
        ∷ db.applies;
  next_apply = db.next_apply + 1;
}

-- `apply_friend`
unfoldable pub apply_friend : Option ℕ → ℤ → ℤ → Text → Text → Db → ℤ × Db
unfolding is_active_user put_apply
apply_friend trouble from to descs back_name db =
    if int_eq from to || (not (is_active_user from db.users) || not (is_active_user to db.users))
    then (negsuc 0, db)
    else if is_friend from to db
    then (pos 1, db)
    else elim trouble [
      | none ↦ (pos 0, put_apply from to descs back_name db)
      | some code ↦ (negsuc 0, db)
    ]

unfoldable pub is_pair : ℤ → ℤ → Friend → Bool
is_pair self friend f = int_eq f.self_uid self && int_eq f.friend_uid friend

-- `INSERT INTO friend ... ON DUPLICATE KEY UPDATE`: the remark of a row that is there is changed by the
-- first statement and kept by the second.
unfoldable pub put_friend : Bool → ℤ → ℤ → Text → List Friend → List Friend
unfolding is_pair
put_friend overwrite self friend remark friends =
    if is_some (first (is_pair self friend) friends)
    then map (λ f. if is_pair self friend f && overwrite then record f { remark = remark } else f)
        friends
    else record { self_uid = self; friend_uid = friend; remark = remark } ∷ friends

unfoldable pub set_apply_status : ℕ → ℕ → List FriendApply → List FriendApply
set_apply_status id status = map (λ a. if a.id == id then record a { status = status } else a)

unfoldable pub find_apply : ℕ → List FriendApply → Option FriendApply
find_apply id = first (λ a. a.id == id)

unfoldable pub settle_apply : FriendApply → Bool → Db → Db
unfolding put_friend set_apply_status
settle_apply a false db = record db { applies = set_apply_status a.id 2 db.applies }
settle_apply a true db = record db {
  friends =
      put_friend false a.to_uid a.from_uid []
        (put_friend true a.from_uid a.to_uid a.back_name db.friends);
  applies = set_apply_status a.id 1 db.applies;
}

unfoldable pub resolve_found : Option ℕ → Option FriendApply → ℤ → Bool → Db → ℤ × Db
unfolding settle_apply
resolve_found trouble none actor agree db = (negsuc 0, db)
resolve_found trouble (some a) actor agree db =
    if not (int_eq a.to_uid actor) || not (a.status == 0)
    then (negsuc 0, db)
    else elim trouble [ none ↦ (pos 0, settle_apply a agree db) | some code ↦ (negsuc 0, db) ]

-- `resolve_friend_apply`
unfoldable pub resolve_friend_apply : Option ℕ → ℕ → ℤ → Bool → Db → ℤ × Db
unfolding resolve_found find_apply
resolve_friend_apply trouble id actor agree db =
    resolve_found trouble (find_apply id db.applies) actor agree db
