-- ===== src/ChatService/Tests.antt =====
-- A text that another chat server asks this one to send, at concrete inputs.
use sakura_chat_server.Prelude.{
  ◌≡◌, refl, ascii, text_eq, pos, ℕ, Bool, true, false, Option, none, some, [], ◌∷◌, is_empty, not,
  ◌&&◌, ◌==◌,
}
use sakura_chat_server.Database.{is_friend, blocked_between}
use sakura_chat_server.Persistence.{lookup}
use sakura_chat_server.Persistence.Privacy.{policy_of, check_privacy, block_check, by_policy}
use sakura_chat_server.Accounts.Users.{with_sql}
use sakura_chat_server.Registry.{find_user, check_token}
use sakura_chat_server.Persistence.Tests.{two_friends, id_one}
use sakura_chat_server.Redis.Limits.{ready}
use sakura_chat_server.Redis.Tests.{Store}
use sakura_chat_server.Wire.{valid_text, uuid, uuid_from, uuid_char, is_hex}
use sakura_chat_server.Database.Sql
use sakura_chat_server.Database.Sql.{with_lease, catching}
use sakura_chat_server.Database.Triple.{idle}
use sakura_chat_server.Session.{new_session}
use sakura_chat_server.Logic.Handlers.{ChatState}
use sakura_chat_server.Logic.Handlers.Tests.{parts, with_token}
use sakura_chat_server.ChatService.{PeerReply, Served, TextChatMsgReq, notify_text_chat_msg}
use sakura_chat_server.ChatService.Sent.{Entitled, notify_text_chat_msg-Entitled}

-- User 2 is here.
abbrev present : ChatState Store
present = record {
  redis = ready 1 (2 ∷ []) with_token 0;
  conn = idle two_friends 0;
  registry = record {
    heap = λ s. record (new_session s 0) { auth_digest = ascii "token" };
    users = (pos 2, ascii "s") ∷ [];
    sessions = [];
  };
}

-- The text that user 1 has stored for user 2.
abbrev hello : TextChatMsgReq
hello = record {
  fromuid = pos 1;
  touid = pos 2;
  textmsgs = record { msgid = id_one; msgcontent = ascii "hello" } ∷ [];
}

notify_text_chat_msg-Entitled_example :
    let sent = (notify_text_chat_msg parts (λ m. 100) true hello present).0.pushed in
    Entitled parts (λ m. 100) two_friends hello present sent × (true ≡ false → sent ≡ [])
notify_text_chat_msg-Entitled_example =
    notify_text_chat_msg-Entitled parts (λ n d. refl) (λ m. 100) two_friends true hello present
      (record { none_open = refl; holds = refl })

abbrev codes : Option PeerReply → ℕ
codes none = 1
codes (some r) = r.error

abbrev pushes_once : Served → Bool
pushes_once out = not (is_empty out.pushed) && (codes out.reply == 0)

-- It is sent.
sent_hello : pushes_once (notify_text_chat_msg parts (λ m. 100) true hello present).0 ≡ true
unfolding notify_text_chat_msg ascii text_eq Sql.◌>>=◌ Sql.statement Sql.pure valid_text uuid
    uuid_from uuid_char is_hex with_lease catching policy_of blocked_between check_privacy
    block_check by_policy Sql.stop_if is_friend with_sql lookup find_user check_token
sent_hello = refl
