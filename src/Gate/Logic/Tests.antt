-- ===== src/Gate/Logic/Tests.antt =====
-- A registration at the gate.
use sakura_chat_server.Prelude.{
  ◌≡◌, refl, ◌⊎◌, Text, ascii, text_eq, pos, Option, none, some, [], ◌∷◌, if◌then◌else◌,
}
use sakura_chat_server.Database.Sql.{◌>>=◌, pure, statement}
use sakura_chat_server.Database.Triple.{idle}
use sakura_chat_server.Passwords.{hash_password}
use sakura_chat_server.Redis.Limits.{ready}
use sakura_chat_server.Redis.Tests.{Store, memory}
use sakura_chat_server.Accounts.Tests.{toy_sodium, quiet, no_users}
use sakura_chat_server.Gate.Logic.{
  GateRequest, GateState, Parts, user_register, reset_pwd, post_handler, account, handle_account,
}
use sakura_chat_server.Gate.Logic.Authorised.{Authorised, handle_account-Authorised}

abbrev parts : Parts Store
parts = record {
  server = memory;
  env = quiet;
  sodium = toy_sodium;
  peers = record {
    varify = λ email purpose. 0;
    chat_server = λ uid. record { error = 0; token = []; host = []; port = [] };
  };
  lower = λ t. t;
  to_string = λ z. [];
  trouble = none;
}

abbrev sent_code : Store
sent_code = record {
  texts = λ k. if text_eq k (ascii "code_register:s@x.jp") then some (ascii "123456") else none;
  counts = λ k. 0;
}

abbrev start : GateState Store
start = record { redis = ready 1 (2 ∷ []) sent_code 0; sql = idle no_users 0; draws = 0 }

abbrev sign_up : Text → Option GateRequest
sign_up body = some (record {
  email = some (ascii "s@x.jp");
  purpose = none;
  password = some (ascii "hanami2026");
  passwd = none;
  varifycode = some body;
  username = some (ascii "sakura");
  user = none;
  confirm = some (ascii "hanami2026");
})

signed_up :
    (handle_account parts sign_up user_register (ascii "10.0.0.1") (ascii "123456") start).0.uid
    ≡ some (pos 1001)
unfolding handle_account hash_password ascii text_eq ◌>>=◌ pure statement
signed_up = refl

wrong_code :
    (handle_account parts sign_up user_register (ascii "10.0.0.1") (ascii "123457") start).0.error
    ≡ 1004
unfolding handle_account hash_password ascii text_eq ◌>>=◌ pure statement
wrong_code = refl

routes : post_handler (ascii "/reset_pwd") ≡ some (account reset_pwd)
unfolding post_handler ascii text_eq
routes = refl

handle_account-Authorised_example :
    ((handle_account parts sign_up user_register (ascii "10.0.0.1") (ascii "123456") start).1.sql.db
      ≡ no_users)
    ⊎ Authorised parts user_register (ascii "10.0.0.1") start.redis (sign_up (ascii "123456"))
handle_account-Authorised_example =
    handle_account-Authorised parts (λ n d. refl) sign_up user_register (ascii "10.0.0.1")
      (ascii "123456") (ready 1 (2 ∷ []) sent_code 0) no_users 0 0
