-- ===== src/Logic/Tests.antt =====
-- Messages that are dealt with.
use sakura_chat_server.Prelude.{◌≡◌, ◌↔◌, ascii, pos, some, [], ◌∷◌, length}
use sakura_chat_server.Session.{Session, new_session}
use sakura_chat_server.Persistence.Tests.{id_two}
use sakura_chat_server.Logic.{Node, decide, calls}
use sakura_chat_server.Logic.Dispatch.{MayCall, decide-calls_iff}
use sakura_chat_server.Logic.Order.{posts, takes, stops, Inv, run, started, run-started-Inv}
use sakura_chat_server.Logic.Chat.{Json, Routes}

-- A session whose user is logged in.
abbrev logged_in : Session
logged_in = record (new_session (ascii "s") 0) { user_id = pos 1; auth_digest = ascii "d" }

decide-calls_iff_example :
    (decide (some (ascii "d")) logged_in 1015 ≡ calls) ↔ MayCall (some (ascii "d")) logged_in 1015
decide-calls_iff_example = decide-calls_iff (some (ascii "d")) logged_in 1015

abbrev text_node : Node
text_node = record { session = ascii "s"; msg_id = 1015; body = ascii "{}" }

run-started-Inv_example :
    Inv (run started (posts text_node ∷ posts text_node ∷ takes ∷ stops ∷ posts text_node ∷ []))
run-started-Inv_example =
    run-started-Inv (posts text_node ∷ posts text_node ∷ takes ∷ stops ∷ posts text_node ∷ [])

-- Every body asks for the text `again` to user 2, who is on this server.
abbrev one_request : Json
one_request = record {
  parse = λ body. some (record {
    touid = pos 2;
    text_array = some (record { msgid = id_two; content = ascii "again" }) ∷ [];
  });
  encoded_length = λ content. length content;
}

abbrev here : Routes
here = record {
  server_of = λ uid. some (ascii "chat1");
  self = ascii "chat1";
  session_of = λ uid. some (ascii "t");
}
