-- ===== src/Status/Choice.antt =====
-- Which server `getChatServer` chooses, and the token of a login.
use sakura_chat_server.Prelude.{
  ℕ, ◌≤◌, ◌≡◌, ◌⊎◌, inl, inr, refl, sym, ap, ◌∙◌, subst, Text, ascii, text_eq_self, ℤ, Bool, true,
  false, Option, none, some, some-injective, none-ne-some, List, [], ◌∷◌, ltb, All, if◌then◌else◌,
  arith,
}
use sakura_chat_server.Redis.{
  Server, string, status, get, set_ex, request, with_connection, get_connection, return_connection,
  redis_command, string_reply, ok_reply,
}
use sakura_chat_server.Redis.Limits.{ready}
use sakura_chat_server.Status.{
  ChatServer, count_of, better, best_of, insert_token, login, check_login, LoginReply,
}

abbrev pub In : ChatServer × Text → List (ChatServer × Text) → Type 0
In p [] = ⊥
In p (x ∷ xs) = (x ≡ p) ⊎ In p xs

-- `r` is a server of `cs` with the count that Redis has for it.
pub record Counted (cs : List (ChatServer × Text)) (r : ChatServer) : Type 0 where
  pub entry : ChatServer × Text
  pub listed : In entry cs
  pub count : count_of entry.1 ≡ some r.con_count
  pub same_server : r ≡ record entry.0 { con_count = r.con_count }

-- `r` is the best of `best` and the servers of `cs` that have a count.
pub record Least (cs : List (ChatServer × Text)) (best r : ChatServer) : Type 0 where
  pub not_above : r.con_count ≤ best.con_count
  pub below_all : All (λ p. (n : ℕ) → count_of p.1 ≡ some n → r.con_count ≤ n) cs
  pub one_of : (r ≡ best) ⊎ Counted cs r

widen :
    (p : ChatServer × Text) (cs : List (ChatServer × Text)) (best r : ChatServer)
    → (r ≡ best) ⊎ Counted cs r
    → (r ≡ best) ⊎ Counted (p ∷ cs) r
widen p cs best r (inl e) = inl e
widen p cs best r (inr c) = inr (record {
  entry = c.entry;
  listed = inr c.listed;
  count = c.count;
  same_server = c.same_server;
})

listed_first :
    (s : ChatServer) (t : Text) (n : ℕ) (cs : List (ChatServer × Text)) (r : ChatServer)
    → count_of t ≡ some n
    → r ≡ record s { con_count = n }
    → Counted ((s, t) ∷ cs) r
listed_first s t n cs r e q = record {
  entry = (s, t);
  listed = inl refl;
  count = e ∙ ap (λ x. some x) (sym (ap (λ x. x.con_count) q));
  same_server = q ∙ ap (λ m. record s { con_count = m }) (sym (ap (λ x. x.con_count) q));
}

-- One server of the loop.
better-Least :
    (s : ChatServer) (t : Text) (cs : List (ChatServer × Text)) (best : ChatServer) (o : Option ℕ)
    → count_of t ≡ o
    → ((b : ChatServer) → Least cs b (best_of cs b))
    → Least ((s, t) ∷ cs) best (best_of cs (better o s best))
unfolding better
better-Least s t cs best none e ih =
    let l = ih best in
    record {
      not_above = l.not_above;
      below_all = ((λ n f. absurd (none-ne-some n (sym e ∙ f))), l.below_all);
      one_of = widen (s, t) cs best (best_of cs best) l.one_of;
    }
better-Least s t cs best (some n) e ih = go (ltb n best.con_count) refl
  where
    go :
        (b : Bool)
        → ltb n best.con_count ≡ b
        → Least ((s, t) ∷ cs) best (best_of cs (if b then record s { con_count = n } else best))
    go true f =
        let l = ih (record s { con_count = n }) in
        record {
          not_above = ground (arith, l.not_above);
          below_all = (
            (λ m g.
                subst (λ x. (best_of cs (record s { con_count = n })).con_count ≤ x)
                  (some-injective n m (sym e ∙ g)) l.not_above),
            l.below_all,
          );
          one_of = elim l.one_of [
            | inl q ↦ inr (listed_first s t n cs (best_of cs (record s { con_count = n })) e q)
            | inr c ↦ widen (s, t) cs best (best_of cs (record s { con_count = n })) (inr c)
          ];
        }
    go false f =
        let l = ih best in
        record {
          not_above = l.not_above;
          below_all = (
            (λ m g.
                subst (λ x. (best_of cs best).con_count ≤ x) (some-injective n m (sym e ∙ g))
                  (ground (arith, l.not_above))),
            l.below_all,
          );
          one_of = widen (s, t) cs best (best_of cs best) l.one_of;
        }

-- The server that `getChatServer` finds has a count in Redis, and no server with a count has fewer
-- logins; it is the one that the loop began with only if none has fewer than that.
pub best_of-Least :
    (cs : List (ChatServer × Text)) (best : ChatServer) → Least cs best (best_of cs best)
unfolding best_of
best_of-Least [] best = record { not_above = omega arith; below_all = tt; one_of = inl refl }
best_of-Least ((s, t) ∷ cs) best =
    better-Least s t cs best (count_of t) refl (λ b. best_of-Least cs b)

-- What SET and GET do to each other in the server.
pub record Sets {S : Type 0} (server : Server S) : Type 0 where
  pub set_ok :
      (key value seconds : Text) (s : S)
      → (server.command (ascii "SET" ∷ key ∷ value ∷ ascii "EX" ∷ seconds ∷ []) s).0
        ≡ status (some (ascii "OK"))
  pub get_set :
      (key value seconds : Text) (s : S)
      → (server.command
          (ascii "GET" ∷ key ∷ [])
          (server.command (ascii "SET" ∷ key ∷ value ∷ ascii "EX" ∷ seconds ∷ []) s).1).0
        ≡ string (some value)

-- While Redis answers, a user logs in with the token that `GetChatServer` inserted for it.
pub login-insert_token :
    {S : Type 0} (server : Server S) (laws : Sets server) (digest : Text → Text)
    (to_string : ℤ → Text) (uid : ℤ) (token : Text) (c : ℕ) (s : S) (n : ℕ)
    → let (stored, w) = insert_token server digest to_string uid token (ready c [] s n) in
      (stored ≡ true) × ((login server digest to_string uid token w).0.error ≡ 0)
unfolding insert_token set_ex login get request with_connection get_connection return_connection
    redis_command ok_reply string_reply check_login
login-insert_token server laws digest to_string uid token c s n = (
  ap (λ r. ok_reply (some r)) (laws.set_ok _ _ _ s) ∙ text_eq_self (ascii "OK"),
  ap (λ r. (check_login server digest to_string token (string_reply (some r))).error)
        (laws.get_set _ _ _ s)
      ∙ ap (λ b. (if b then zero_reply else wrong_reply).error) (text_eq_self (digest token)),
)
  where
    zero_reply : LoginReply
    zero_reply = record { error = 0 }

    wrong_reply : LoginReply
    wrong_reply = record { error = 1010 }
