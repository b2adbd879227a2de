-- ===== src/Registry/Tests.antt =====
-- Two logins of a user.
use sakura_chat_server.Prelude.{if◌then◌else◌, ◌≡◌, refl, ascii, text_eq, pos, some, [], ◌∷◌}
use sakura_chat_server.Session.{new_session}
use sakura_chat_server.Registry.{Registry, find_user, set_user_session, clear_session}
use sakura_chat_server.Registry.Logins.{set_user_session-stays}

-- User 1 has the session `a` and user 2 the session `c`, and `b` was just accepted.
abbrev three_sessions : Registry
three_sessions = record {
  heap = λ s. record (new_session s 0) { user_id = if text_eq s (ascii "c") then pos 2 else pos 1 };
  users = (pos 1, ascii "a") ∷ (pos 2, ascii "c") ∷ [];
  sessions = ascii "a" ∷ ascii "b" ∷ ascii "c" ∷ [];
}

set_user_session-stays_example :
    find_user
      (pos 1)
      (clear_session (ascii "a") (set_user_session (pos 1) (ascii "b") three_sessions)).users
    ≡ some (ascii "b")
unfolding text_eq ascii new_session
set_user_session-stays_example =
    set_user_session-stays (pos 1) (ascii "b") (ascii "a") three_sessions refl refl
