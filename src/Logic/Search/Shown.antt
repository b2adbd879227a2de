-- ===== src/Logic/Search/Shown.antt =====
-- Whom a search finds, and what it shows.
use sakura_chat_server.Prelude.{
  ◌≡◌, Text, ℤ, pos, int_eq, true, false, ◌&&◌, ◌||◌, Option, none, some, all, length, is_empty,
  ltb, if◌then◌else◌, if_either, first, ◌==◌,
}
use sakura_chat_server.Database.{User, Db}
use sakura_chat_server.Database.Sql
use sakura_chat_server.Database.Sql.{pure, query}
use sakura_chat_server.Status.{is_digit, int_max_value, uid_invalid}
use sakura_chat_server.Persistence.Privacy.{search_policy, profile_policy, privacy_allows}
use sakura_chat_server.Persistence.Privacy.Sound.{allowed}
use sakura_chat_server.Accounts.Users.{UserInfo, info_of, get_user, get_user_by_name, with_sql}
use sakura_chat_server.Accounts.Users.Login.{Alone}
use sakura_chat_server.Logic.Handlers.{
  ChatState, Parts, Run, ◌>>=◌, give, on_conn, hidden, replied, Reading, throws, unfit, fits,
}
use sakura_chat_server.Logic.Handlers.Quiet.{
  Still, privacy_allows-Still, privacy_allows-true, redact_profile-Hidden, asked-Still,
}
use sakura_chat_server.Logic.Login.{leading_value}
use sakura_chat_server.Logic.Search.{
  error_json, FoundUser, Answer, search_error, not_found, profile_of, show_user, show_found,
  search_keyword, search_for, search_info,
}

-- The user may be searched, and the profile is blank if it may not be seen.
pub record MayFind (d : Db) (actor : ℤ) (u : FoundUser) : Type 0 where
  pub searched : allowed u.uid actor search_policy d ≡ true
  pub seen : allowed u.uid actor profile_policy d ≡ false → u.profile ≡ hidden u.profile

abbrev found_user : Answer → Option FoundUser
found_user a = elim a.reply [ none ↦ none | some r ↦ r.user ]

abbrev Found : Db → ℤ → Option FoundUser → Type 0
Found d actor none = Unit
Found d actor (some u) = MayFind d actor u

-- What is found may be found.
pub record Fair (d : Db) (actor : ℤ) (a : Answer) : Type 0 where
  pub found : Found d actor (found_user a)

module _ {S : Type 0} (g : Parts S) (alone : Alone g.env) (actor : ℤ) (d : Db) where
  show_user-Fair :
      (u : UserInfo) (s : ChatState S)
      → allowed u.uid actor search_policy d ≡ true
      → Still d s.conn
      → Fair d actor (show_user g actor u s).0
  unfolding show_user
  show_user-Fair u s may v = record {
    found = record {
      searched = may;
      seen = redact_profile-Hidden g.env alone (profile_of u) u.uid actor d s.conn v;
    };
  }

  show_found-Fair :
      (o : Option UserInfo) (s : ChatState S)
      → Still d s.conn
      → Fair d actor (show_found g actor o s).0
  unfolding show_found
  show_found-Fair none s v = record { found = tt }
  show_found-Fair (some u) s v =
      let (may, s1) = on_conn (privacy_allows g.env u.uid actor search_policy) s in
      if_either {A = Run S Answer} (λ m. Fair d actor (m s1).0) may (show_user g actor u)
        (give (replied not_found))
        (λ e.
          show_user-Fair u s1
            (privacy_allows-true g.env alone u.uid actor search_policy d s.conn v e)
            (privacy_allows-Still g.env alone u.uid actor search_policy d s.conn v))
        (λ _. record { found = tt })

  -- The user that a query found.
  asked-Fair :
      (f : Db → Option User) (s : ChatState S)
      → Still d s.conn
      → let (o, c) =
          with_sql g.env none none (Sql.◌>>=◌ (query g.env f) (λ row. pure (info_of row))) s.conn in
        Fair d actor (show_found g actor o (record s { conn = c })).0
  asked-Fair f s v = show_found-Fair _ _ (asked-Still g.env alone none none f info_of d s.conn v)

  search_keyword-Fair :
      (keyword : Text) (s : ChatState S)
      → Still d s.conn
      → Fair d actor (search_keyword g actor keyword s).0
  unfolding search_keyword
  search_keyword-Fair keyword s v =
      if_either {A = Run S Answer} (λ m. Fair d actor (m s).0) (all is_digit keyword)
        (if ltb int_max_value (leading_value 0 keyword)
          then give (replied (search_error uid_invalid))
          else on_conn (get_user g.env (pos (leading_value 0 keyword))) >>= show_found g actor)
        (on_conn (get_user_by_name g.env keyword) >>= show_found g actor)
        (λ _.
          if_either {A = Run S Answer} (λ m. Fair d actor (m s).0)
            (ltb int_max_value (leading_value 0 keyword))
            (give (replied (search_error uid_invalid)))
            (on_conn (get_user g.env (pos (leading_value 0 keyword))) >>= show_found g actor)
            (λ _. record { found = tt })
            (λ _.
              asked-Fair
                (λ db.
                  first (λ u. int_eq u.uid (pos (leading_value 0 keyword)) && (u.status == 0))
                    db.users)
                s v))
        (λ _.
          asked-Fair (λ db. first (λ u. g.env.same u.name keyword && (u.status == 0)) db.users) s v)

  search_for-Fair :
      (o : Reading Text) (s : ChatState S)
      → Still d s.conn
      → Fair d actor (search_for g actor o s).0
  unfolding search_for
  search_for-Fair throws s v = record { found = tt }
  search_for-Fair unfit s v = record { found = tt }
  search_for-Fair (fits keyword) s v =
      if_either {A = Run S Answer} (λ m. Fair d actor (m s).0)
        (is_empty keyword || ltb 64 (length keyword)) (give (replied (search_error error_json)))
        (search_keyword g actor keyword) (λ _. record { found = tt })
        (λ _. search_keyword-Fair keyword s v)

  -- When no other connection commits anything, and whichever calls fail: a search finds only a user whom
  -- the tables allow the searcher to search, and shows a blank profile if they do not allow the searcher
  -- to see it.
  pub search_info-Fair :
      (parse : Text → Reading Text) (body : Text) (s : ChatState S)
      → Still d s.conn
      → Fair d actor (search_info g parse actor body s).0
  unfolding search_info
  search_info-Fair parse body s v = search_for-Fair (parse body) s v
