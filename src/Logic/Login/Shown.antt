-- ===== src/Logic/Login/Shown.antt =====
-- Whose profiles a login shows, in its list of pending requests.
use sakura_chat_server.Prelude.{◌≡◌, ℤ, false, List, [], ◌∷◌, All}
use sakura_chat_server.Database.{Db}
use sakura_chat_server.Persistence.Privacy.{profile_policy}
use sakura_chat_server.Persistence.Privacy.Sound.{allowed}
use sakura_chat_server.Accounts.Users.Login.{Alone}
use sakura_chat_server.Accounts.Friends.{PendingFriendApplyInfo}
use sakura_chat_server.Logic.Handlers.{ChatState, Parts, ◌>>=◌, on_conn, hidden, redact_profile}
use sakura_chat_server.Logic.Handlers.Quiet.{Still, redact_profile-Still, redact_profile-Hidden}
use sakura_chat_server.Logic.Login.{LoginJson, ApplyItem, pending_profile, apply_items}

-- The profile is blank if the tables do not allow the user to see it.
abbrev pub ShownTo : Db → ℤ → ApplyItem → Type 0
ShownTo d uid item =
    allowed item.uid uid profile_policy d ≡ false → item.profile ≡ hidden item.profile

module _ {S : Type 0} (g : Parts S) (json : LoginJson) (alone : Alone g.env) where
  -- When no other connection commits anything: the profiles in the list of pending requests are blank
  -- where the tables do not allow the user to see them, whichever calls fail.
  pub apply_items-ShownTo :
      (uid : ℤ) (l : List PendingFriendApplyInfo) (d : Db) (s : ChatState S)
      → Still d s.conn
      → All (ShownTo d uid) (apply_items g json uid l s).0
  unfolding apply_items ◌>>=◌
  apply_items-ShownTo uid [] d s v = tt
  apply_items-ShownTo uid (a ∷ rest) d s v =
      let (shown, s1) = on_conn (redact_profile g.env (pending_profile a) a.uid uid) s in
      (
        redact_profile-Hidden g.env alone (pending_profile a) a.uid uid d s.conn v,
        apply_items-ShownTo uid rest d s1
            (redact_profile-Still g.env alone (pending_profile a) a.uid uid d s.conn v),
      )
