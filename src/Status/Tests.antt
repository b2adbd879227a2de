-- ===== src/Status/Tests.antt =====
-- A choice of a server, and a login, on a Redis server that keeps one value.
use sakura_chat_server.Prelude.{refl, Text, ascii, pos, some, List, [], ◌∷◌}
use sakura_chat_server.Redis.{Reply, string, status, Server}
use sakura_chat_server.Status.{ChatServer, best_of, no_server}
use sakura_chat_server.Status.Choice.{Least, Sets, best_of-Least}

abbrev two_servers : List (ChatServer × Text)
two_servers =
    (record { host = ascii "a"; port = ascii "1"; name = ascii "chat1"; con_count = 0 }, ascii "12")
    ∷ (
      record { host = ascii "b"; port = ascii "2"; name = ascii "chat2"; con_count = 0 },
      ascii "7",
    )
    ∷ []

best_of-Least_example : Least two_servers no_server (best_of two_servers no_server)
best_of-Least_example = best_of-Least two_servers no_server

-- SET keeps its value, and every other command reads it.
answer_with : List Text → Text → Reply × Text
answer_with (set ∷ key ∷ value ∷ ex ∷ seconds ∷ []) s = (status (some (ascii "OK")), value)
answer_with words s = (string (some s), s)

abbrev one_value : Server Text
one_value = record {
  command = answer_with;
  get = λ key s. some s;
  incr = λ key s. some (1, s);
  expire = λ key seconds s. s;
  ttl = λ key s. pos 60;
  del = λ key s. (1, s);
}

one_value-Sets : Sets one_value
unfolding answer_with
one_value-Sets = record {
  set_ok = λ key value seconds s. refl;
  get_set = λ key value seconds s. refl;
}
