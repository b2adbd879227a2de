-- ===== src/Persistence/Privacy/Tests.antt =====
-- Privacy commands on a small database.
use sakura_chat_server.Prelude.{◌≡◌, refl, ascii, pos, true, none, some, [], ◌∷◌, text_eq}
use sakura_chat_server.Database.{Db}
use sakura_chat_server.Database.Sql.{
  Env, statement, stop_if, pure, catching, with_lease, ◌>>=◌, stop,
}
use sakura_chat_server.Database.Triple.{idle}
use sakura_chat_server.Database.Leases.{Over}
use sakura_chat_server.Persistence.Privacy.Command.{
  PrivacyRequest, is_retention, block_rows, add_blocks, privacy_command, other_user, put_block,
  apply_command, read_settings, run_command, command_on,
}
use sakura_chat_server.Persistence.Privacy.Sane.{Sane, privacy_command-Over}

abbrev strangers : Db
strangers = record {
  users = [];
  friends = [];
  applies = [];
  next_apply = 1;
  devices = [];
  prekeys = [];
  envelopes = [];
  next_envelope = 1;
  last_uid = 0;
  blocks = record { owner_uid = pos 1; blocked_uid = pos 5 } ∷ [];
  threads = [];
  private_chats = [];
  messages = [];
  expiry = [];
  receipts = [];
  retention = record { uid = pos 1; seconds = 604800 } ∷ [];
  privacy = [];
  heads = [];
  events = [];
  next_thread = 1;
  next_message = 1;
  now = 0;
}

abbrev calm_server : Env
calm_server = record {
  fault = λ n. none;
  commit_applied = λ n. true;
  leases = λ n. true;
  interfere = λ n d. d;
  same = text_eq;
}

abbrev block_three : PrivacyRequest
block_three = record {
  action = some (ascii "block");
  seconds = none;
  search_policy = none;
  request_policy = none;
  profile_policy = none;
  read_receipts = none;
  uid = some (pos 3);
  after_uid = none;
}

blocked_now :
    block_rows
      (pos 1)
      (pos 0)
      (privacy_command calm_server (pos 1) block_three (idle strangers 0)).1.db
    ≡ pos 3 ∷ pos 5 ∷ []
unfolding privacy_command command_on run_command apply_command read_settings block_rows add_blocks
    other_user put_block ascii text_eq with_lease catching statement stop_if pure ◌>>=◌ stop
blocked_now = refl

privacy_command-Over_example :
    Over Sane (privacy_command calm_server (pos 1) block_three (idle strangers 0)).1
unfolding is_retention
privacy_command-Over_example =
    privacy_command-Over calm_server (pos 1) block_three (λ n d v. v) (idle strangers 0)
      (record {
        none_open = refl;
        holds = record { policies = tt; retentions = (refl, tt); blocks = ((refl, refl), tt) };
      })
