-- ===== src/Logic/Applies/Refused.antt =====
-- What a request to a user who does not take it leaves.
use sakura_chat_server.Prelude.{
  ℕ, ◌≡◌, refl, sym, subst, Text, ℤ, is_positive, int_eq, false, not, ◌||◌, Option, [], length, ltb,
  if_either,
}
use sakura_chat_server.Database.{Db}
use sakura_chat_server.Status.{uid_invalid}
use sakura_chat_server.Persistence.Privacy.{request_policy, privacy_allows}
use sakura_chat_server.Persistence.Privacy.Sound.{allowed}
use sakura_chat_server.Accounts.Users.Login.{Alone}
use sakura_chat_server.Logic.Handlers.{
  ChatState, Parts, Run, give, on_conn, replied, Reading, throws, unfit, fits,
}
use sakura_chat_server.Logic.Handlers.Quiet.{Still, privacy_allows-Still, privacy_allows-false}
use sakura_chat_server.Logic.Applies.{
  AddRequest, AddAnswer, add_error, store_apply, apply_to, apply_request, add_friend_handler,
}

-- The tables are as they were, and nobody was told.
pub record Refused {S : Type 0} (d : Db) (out : AddAnswer × ChatState S) : Type 0 where
  pub still : Still d out.1.conn
  pub untold : out.0.notices ≡ []

module _ {S : Type 0} (g : Parts S) (alone : Alone g.env) (from : ℤ) (d : Db)
    (trouble : Option ℕ) where
  -- The user whom the request names does not take requests of this one.
  abbrev pub Unwelcome : Reading AddRequest → Type 0
  Unwelcome throws = Unit
  Unwelcome unfit = Unit
  Unwelcome (fits r) = allowed r.touid from request_policy d ≡ false

  apply_to-Refused :
      (r : AddRequest) (s : ChatState S)
      → allowed r.touid from request_policy d ≡ false
      → Still d s.conn
      → Refused d (apply_to g trouble from r s)
  unfolding apply_to store_apply
  apply_to-Refused r s h v =
      let (may, s1) = on_conn (privacy_allows g.env r.touid from request_policy) s in
      subst (λ b. Refused d (store_apply g trouble from r b s1))
        (sym (privacy_allows-false g.env alone r.touid from request_policy d s.conn v h))
        (record {
          still = privacy_allows-Still g.env alone r.touid from request_policy d s.conn v;
          untold = refl;
        })

  apply_request-Refused :
      (o : Reading AddRequest) (s : ChatState S)
      → Unwelcome o
      → Still d s.conn
      → Refused d (apply_request g trouble from o s)
  unfolding apply_request
  apply_request-Refused throws s h v = record { still = v; untold = refl }
  apply_request-Refused unfit s h v = record { still = v; untold = refl }
  apply_request-Refused (fits r) s h v =
      if_either {A = Run S AddAnswer} (λ m. Refused d (m s))
        ((not (is_positive from) || (not (is_positive r.touid) || int_eq from r.touid))
          || (ltb 255 (length r.descs) || ltb 64 (length r.back_name)))
        (give (replied (add_error uid_invalid))) (apply_to g trouble from r)
        (λ _. record { still = v; untold = refl }) (λ _. apply_to-Refused r s h v)

  -- When no other connection commits anything, and whichever calls fail: a request to a user whose
  -- policy or block does not let this user make one changes no table and is told to nobody.
  pub add_friend_handler-Refused :
      (parse : Text → Reading AddRequest) (body : Text) (s : ChatState S)
      → Unwelcome (parse body)
      → Still d s.conn
      → Refused d (add_friend_handler g parse trouble from body s)
  unfolding add_friend_handler
  add_friend_handler-Refused parse body s h v = apply_request-Refused (parse body) s h v
