-- ===== src/Persistence/Privacy/Command.antt =====
-- `MysqlDao::PrivacyCommand` (Common/src/ChatPersistence.cpp): a user's retention, policies and blocks.
-- A member of the request that has another type than the source asks for is `none`.
use sakura_chat_server.Prelude.{
  ℕ, Text, ℤ, pos, negsuc, text_eq, ascii, Bool, true, false, not, ◌&&◌, ◌||◌, Option, none, some,
  List, [], ◌∷◌, ◌++◌, keep, first, take, length, leb, int_eq, int_le, is_positive, is_negative,
  ◌==◌, if◌then◌else◌,
}
use sakura_chat_server.Database.{Privacy, Block, Retention, Db}
use sakura_chat_server.Database.Sql.{
  Env, Conn, Sql, ◌>>=◌, ◌>>◌, stop, stop_if, pure, query, update, with_lease, catching,
}
use sakura_chat_server.Persistence.{chat_data_invalid, chat_database_failed}

pub record PrivacyRequest : Type 0 where
  pub action : Option Text
  pub seconds : Option ℤ
  pub search_policy : Option ℤ
  pub request_policy : Option ℤ
  pub profile_policy : Option ℤ
  pub read_receipts : Option Bool
  pub uid : Option ℤ
  pub after_uid : Option ℤ

pub record Settings : Type 0 where
  pub retention_seconds : ℕ
  pub search_policy : ℕ
  pub request_policy : ℕ
  pub profile_policy : ℕ
  pub read_receipts : Bool
  pub blocked : List ℤ
  pub next_uid : ℤ
  pub has_more : Bool

pub record PrivacyReply : Type 0 where
  pub error : ℕ
  pub settings : Option Settings

abbrev pub refused : ℕ → PrivacyReply
refused code = record { error = code; settings = none }

-- `seconds != 0 && seconds != 86400 && seconds != 604800 && seconds != 2592000` is not so.
unfoldable pub is_retention : ℕ → Bool
is_retention s = (s == 0) || ((s == 86400) || ((s == 604800) || (s == 2592000)))

unfoldable pub retention_value : Option ℤ → Sql PrivacyReply ℕ
unfolding is_retention
retention_value none = stop (refused chat_data_invalid)
retention_value (some (negsuc n)) = stop (refused chat_data_invalid)
retention_value (some (pos n)) = do
  stop_if (not (is_retention n)) (refused chat_data_invalid)
  pure n

-- `!request[key].isInt() || request[key].asInt() < 0 || request[key].asInt() > 2`
unfoldable pub policy_value : Option ℤ → Sql PrivacyReply ℕ
policy_value none = stop (refused chat_data_invalid)
policy_value (some (negsuc n)) = stop (refused chat_data_invalid)
policy_value (some (pos n)) = do stop_if (not (leb n 2)) (refused chat_data_invalid); pure n

unfoldable pub flag_value : Option Bool → Sql PrivacyReply Bool
flag_value none = stop (refused chat_data_invalid)
flag_value (some b) = pure b

unfoldable pub other_user : ℤ → Option ℤ → Sql PrivacyReply ℤ
other_user actor none = stop (refused chat_data_invalid)
other_user actor (some u) = do
  stop_if (not (is_positive u) || int_eq u actor) (refused chat_data_invalid)
  pure u

-- `INSERT INTO user_message_retention ... ON DUPLICATE KEY UPDATE`
unfoldable pub put_retention : ℤ → ℕ → Db → Db
put_retention actor s db = record db {
  retention =
      record { uid = actor; seconds = s } ∷ keep (λ r. not (int_eq r.uid actor)) db.retention;
}

-- `INSERT INTO user_privacy ... ON DUPLICATE KEY UPDATE`
unfoldable pub put_privacy : ℤ → ℕ → ℕ → ℕ → Bool → Db → Db
put_privacy actor search request profile receipts db = record db {
  privacy =
      record {
        uid = actor;
        search_policy = search;
        request_policy = request;
        profile_policy = profile;
        read_receipts = if receipts then 1 else 0;
      }
      ∷ keep (λ p. not (int_eq p.uid actor)) db.privacy;
}

abbrev pub is_block : ℤ → ℤ → Block → Bool
is_block actor u b = int_eq b.owner_uid actor && int_eq b.blocked_uid u

-- `DELETE FROM user_block WHERE owner_uid=? AND blocked_uid=?`
unfoldable pub delete_block : ℤ → ℤ → Db → Db
delete_block actor u db = record db { blocks = keep (λ b. not (is_block actor u b)) db.blocks }

-- `INSERT INTO user_block ... ON DUPLICATE KEY UPDATE`
unfoldable pub put_block : ℤ → ℤ → Db → Db
put_block actor u db = record db {
  blocks =
      record { owner_uid = actor; blocked_uid = u }
      ∷ keep (λ b. not (is_block actor u b)) db.blocks;
}

pub data Command : Type 0 where
  set_retention set_policies block unblock get_settings unknown_action : Command

abbrev pub command_of : Text → Command
command_of t =
    if text_eq t (ascii "set_retention")
    then set_retention
    else if text_eq t (ascii "set")
    then set_policies
    else if text_eq t (ascii "block")
    then block
    else if text_eq t (ascii "unblock")
    then unblock
    else if text_eq t (ascii "get")
    then get_settings
    else unknown_action

-- The branches on the action.
unfoldable pub apply_command : Env → ℤ → PrivacyRequest → Command → Sql PrivacyReply (Unit {0})
unfolding retention_value policy_value flag_value other_user put_retention put_privacy put_block
    delete_block
apply_command env actor req set_retention = do
  s ← retention_value req.seconds
  update env (put_retention actor s)
apply_command env actor req set_policies = do
  search ← policy_value req.search_policy
  request ← policy_value req.request_policy
  profile ← policy_value req.profile_policy
  receipts ← flag_value req.read_receipts
  update env (put_privacy actor search request profile receipts)
apply_command env actor req block = do u ← other_user actor req.uid; update env (put_block actor u)
apply_command env actor req unblock = do
  u ← other_user actor req.uid
  update env (delete_block actor u)
apply_command env actor req get_settings = pure tt
apply_command env actor req unknown_action = stop (refused chat_data_invalid)

abbrev pub seconds_or_zero : Option Retention → ℕ
seconds_or_zero none = 0
seconds_or_zero (some r) = r.seconds

abbrev pub default_privacy : ℤ → Option Privacy → Privacy
default_privacy actor none = record {
  uid = actor;
  search_policy = 0;
  request_policy = 0;
  profile_policy = 1;
  read_receipts = 1;
}
default_privacy actor (some p) = p

-- `action == "get" && request["after_uid"].isInt() ? request["after_uid"].asInt() : 0`
abbrev pub after_of : Command → Option ℤ → ℤ
after_of get_settings (some u) = u
after_of _ _ = pos 0

unfoldable pub insert_uid : ℤ → List ℤ → List ℤ
insert_uid u [] = u ∷ []
insert_uid u (x ∷ xs) = let rest = insert_uid u xs in if int_le u x then u ∷ x ∷ xs else x ∷ rest

unfoldable pub sort_uids : List ℤ → List ℤ
unfolding insert_uid
sort_uids [] = []
sort_uids (u ∷ us) = insert_uid u (sort_uids us)

abbrev pub blocked_of : List Block → List ℤ
blocked_of [] = []
blocked_of (b ∷ bs) = b.blocked_uid ∷ blocked_of bs

-- `WHERE owner_uid=? AND blocked_uid>? ORDER BY blocked_uid LIMIT 33`
unfoldable pub block_rows : ℤ → ℤ → Db → List ℤ
unfolding sort_uids
block_rows actor after db = take 33 (
    sort_uids (
      blocked_of
        (keep (λ b. int_eq b.owner_uid actor && not (int_le b.blocked_uid after)) db.blocks)))

-- The loop over the blocks, with at most 32 of them in the reply.
unfoldable pub add_blocks : List ℤ → Settings → Settings
add_blocks [] r = r
add_blocks (u ∷ us) r =
    let rest = add_blocks us (record r { blocked = r.blocked ++ u ∷ []; next_uid = u }) in
    if length r.blocked == 32 then record r { has_more = true } else rest

-- The reply to the command, read back from the tables.
unfoldable pub read_settings : Env → ℤ → ℤ → Sql PrivacyReply PrivacyReply
unfolding block_rows add_blocks
read_settings env actor after = do
  retention ← query env (λ db. first (λ r. int_eq r.uid actor) db.retention)
  row ← query env (λ db. first (λ p. int_eq p.uid actor) db.privacy)
  stop_if (is_negative after) (refused chat_data_invalid)
  rows ← query env (block_rows actor after)
  let p = default_privacy actor row
  pure (record {
    error = 0;
    settings = some (
        add_blocks rows (record {
          retention_seconds = seconds_or_zero retention;
          search_policy = p.search_policy;
          request_policy = p.request_policy;
          profile_policy = p.profile_policy;
          read_receipts = not (p.read_receipts == 0);
          blocked = [];
          next_uid = after;
          has_more = false;
        }));
  })

unfoldable pub run_command : Env → ℤ → PrivacyRequest → Command → Sql PrivacyReply PrivacyReply
unfolding apply_command read_settings
run_command env actor req command = do
  apply_command env actor req command
  read_settings env actor (after_of command req.after_uid)

unfoldable pub command_on : Env → ℤ → PrivacyRequest → Option Text → Conn → PrivacyReply × Conn
unfolding run_command
command_on env actor req none c = (refused chat_data_invalid, c)
command_on env actor req (some action) c =
    if not (is_positive actor)
    then (refused chat_data_invalid, c)
    else catching (with_lease env (run_command env actor req (command_of action)))
        (refused chat_database_failed) c

-- `PrivacyCommand`
unfoldable pub privacy_command : Env → ℤ → PrivacyRequest → Conn → PrivacyReply × Conn
unfolding command_on
privacy_command env actor req c = command_on env actor req req.action c
