-- ===== src/Logic/Handlers/Tests.antt =====
-- The handlers at concrete inputs.
use sakura_chat_server.Prelude.{
  ◌≡◌, ◌⊎◌, refl, ascii, text_eq, pos, true, false, none, some, [], ◌∷◌, map, if◌then◌else◌, arith,
}
use sakura_chat_server.Database.{Db, blocked_between, is_friend}
use sakura_chat_server.Database.Sql
use sakura_chat_server.Database.Triple.{idle}
use sakura_chat_server.Redis.{string, nil, Server}
use sakura_chat_server.Redis.Limits.{ready}
use sakura_chat_server.Redis.Tests.{Store, memory}
use sakura_chat_server.Session.{new_session}
use sakura_chat_server.Registry.{Registry}
use sakura_chat_server.Persistence.Tests.{two_friends, deadlock, id_two}
use sakura_chat_server.Persistence.Paging.Pages.{Stopped}
use sakura_chat_server.Persistence.Privacy.{policy_of, request_policy}
use sakura_chat_server.Persistence.Privacy.Sound.{allowed}
use sakura_chat_server.Persistence.History.{HistoryJson, shorten, history_rows, chat_history}
use sakura_chat_server.Persistence.History.Sent.{TooLarge, HistorySent, chat_history-HistorySent}
use sakura_chat_server.Accounts.Tests.{quiet}
use sakura_chat_server.Logic.{is_registered, decide, calls}
use sakura_chat_server.Logic.Handlers.{ChatState, Parts, fits}
use sakura_chat_server.Logic.Login.{Account, LoginRequest, LoginJson, login_handler}
use sakura_chat_server.Logic.Login.Bound.{lists, Logged, login_handler-Logged, login_handler-decide}
use sakura_chat_server.Logic.Search.{search_info}
use sakura_chat_server.Logic.Search.Shown.{Fair, search_info-Fair}
use sakura_chat_server.Logic.Applies.{AddRequest, add_friend_handler}
use sakura_chat_server.Logic.Applies.Refused.{Refused, add_friend_handler-Refused}
use sakura_chat_server.Logic.FriendList.{FriendJson, no_friends, get_friend_list, list_page}
use sakura_chat_server.Logic.FriendList.Shown.{Covered, get_friend_list-Covered}
use sakura_chat_server.Logic.FriendList.Cut.{Listed, list_page-Listed}
use sakura_chat_server.Logic.Sync.{SyncRequest, SyncJson, chat_sync}
use sakura_chat_server.Logic.Sync.Replies.{Answered, chat_sync-Answered}
use sakura_chat_server.Accounts.Friends.{FriendPageResult}

-- A server that gets texts by their keys, and has the token of user 1.
abbrev pub texts : Server Store
texts = record memory {
  command = λ words s. elim words [
    | [] ↦ (nil, s)
    | word ∷ keys ↦ elim keys [
      | [] ↦ (nil, s)
      | key ∷ rest ↦ ((if text_eq word (ascii "GET") then string (s.texts key) else nil), s)
    ]
  ];
}

abbrev pub with_token : Store
with_token = record {
  texts = λ k. if text_eq k (ascii "_utoken1") then some (ascii "token") else none;
  counts = λ k. 0;
}

-- User 2 takes no requests and shows no profile.
abbrev reserved : Db
reserved = record two_friends {
  privacy =
      record {
        uid = pos 2;
        search_policy = 0;
        request_policy = 2;
        profile_policy = 2;
        read_receipts = 1;
      }
      ∷ [];
}

abbrev pub no_sessions : Registry
no_sessions = record { heap = λ s. new_session s 0; users = []; sessions = [] }

abbrev state : ChatState Store
state = record {
  redis = ready 1 (2 ∷ []) with_token 0;
  conn = idle reserved 0;
  registry = no_sessions;
}

abbrev pub parts : Parts Store
parts = record {
  server = texts;
  env = quiet;
  digest = λ t. t;
  to_string = λ u. ascii "1";
  self_name = ascii "chat1";
}

abbrev one : LoginRequest
one = record { uid = pos 1; token = ascii "token" }

abbrev first_user : Account
first_user = record {
  uid = pos 1;
  name = ascii "a";
  email = [];
  nick = [];
  desc = [];
  gender = 0;
  icon = [];
}

abbrev login_json : LoginJson
login_json = record {
  parse = λ body. some one;
  parse_account = λ t. some first_user;
  print_account = λ a. [];
}

login_handler-Logged_example :
    Logged parts login_json
      (ascii "s")
      (ascii "{}")
      state
      (login_handler parts login_json (ascii "s") (ascii "{}") state)
login_handler-Logged_example = login_handler-Logged parts login_json (ascii "s") (ascii "{}") state

logged_in : lists (login_handler parts login_json (ascii "s") (ascii "{}") state).0 ≡ true
unfolding login_handler ascii text_eq Sql.◌>>=◌ Sql.statement Sql.pure
logged_in = refl

text_registered : is_registered 1015 ≡ true
unfolding is_registered
text_registered = refl

login_handler-decide_example :
    decide
      (some (ascii "token"))
      ((login_handler parts login_json (ascii "s") (ascii "{}") state).1.registry.heap (ascii "s"))
      1015
    ≡ calls
unfolding new_session
login_handler-decide_example =
    login_handler-decide parts login_json (ascii "s") (ascii "{}") state one 1015 refl logged_in
      refl text_registered (λ e. absurd (omega (arith, e)))

search_info-Fair_example :
    Fair reserved
      (pos 1)
      (search_info parts (λ body. fits (ascii "2")) (pos 1) (ascii "{}") state).0
search_info-Fair_example =
    search_info-Fair parts (λ n d. refl) (pos 1) reserved (λ body. fits (ascii "2")) (ascii "{}")
      state (record { none_open = refl; holds = refl })

abbrev pub to_two : AddRequest
to_two = record { touid = pos 2; descs = ascii "hi"; back_name = [] }

no_requests : allowed (pos 2) (pos 1) request_policy reserved ≡ false
unfolding policy_of blocked_between is_friend
no_requests = refl

add_friend_handler-Refused_example :
    Refused reserved
      (add_friend_handler parts (λ body. fits to_two) none (pos 1) (ascii "{}") state)
add_friend_handler-Refused_example =
    add_friend_handler-Refused parts (λ n d. refl) (pos 1) reserved none (λ body. fits to_two)
      (ascii "{}") state no_requests (record { none_open = refl; holds = refl })

abbrev friend_json : FriendJson
friend_json = record {
  parse = λ body. some (record { request_id = id_two; after_uid = pos 0 });
  size = λ r. 100;
}

get_friend_list-Covered_example :
    Covered reserved (pos 1) (get_friend_list parts friend_json (pos 1) (ascii "{}") state).0
get_friend_list-Covered_example =
    get_friend_list-Covered parts (λ n d. refl) friend_json (pos 1) reserved (ascii "{}") state
      (record { none_open = refl; holds = refl })

abbrev one_friend : FriendPageResult
one_friend = record {
  ok = true;
  has_more = true;
  items =
      record { uid = pos 2; name = ascii "b"; nick = []; icon = []; remark = []; gender = 0 } ∷ [];
}

list_page-Listed_example :
    Listed friend_json one_friend
      (record no_friends { error = 0 })
      (list_page parts friend_json (pos 1) no_friends one_friend state).0
list_page-Listed_example =
    list_page-Listed parts friend_json (pos 1) one_friend no_friends state refl refl

abbrev history_json : HistoryJson
history_json = record { row_size = λ r. 2000; size = λ p. 100 }

chat_history-HistorySent_example :
    let rows = map (shorten history_json.row_size) (history_rows (pos 1) (pos 2) 0 two_friends) in
    HistorySent
      (Stopped deadlock 0 ⊎ TooLarge history_json.size 0 rows)
      0
      rows
      (chat_history deadlock history_json (pos 1) (pos 2) 0 (idle two_friends 0)).0
chat_history-HistorySent_example =
    chat_history-HistorySent deadlock history_json (pos 1) (pos 2) 0 two_friends 0

-- A request for the history with user 2.
abbrev history_request : SyncRequest
history_request = record {
  request_id = some id_two;
  message_id = none;
  after_event = none;
  after_seq = some (ascii "0");
  after_thread = none;
  for_everyone = none;
  peer_uid = some (pos 2);
  receipt = none;
  msgids = none;
}

abbrev sync_json : SyncJson
sync_json = record {
  parse = λ body. some history_request;
  size = λ r. 100;
  event_size = λ p. 100;
  conversation_size = λ p. 100;
  history = history_json;
}

chat_sync-Answered_example :
    let out = chat_sync deadlock sync_json (pos 1) 1020 (ascii "{}") (idle two_friends 0) in
    (out.0.0 ≡ 1021)
    × Answered deadlock sync_json (pos 1) 1020 (ascii "{}") (idle two_friends 0) (out.0.1, out.1)
chat_sync-Answered_example =
    chat_sync-Answered deadlock sync_json (pos 1) 1020 (ascii "{}") (idle two_friends 0)
