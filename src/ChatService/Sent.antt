-- ===== src/ChatService/Sent.antt =====
-- Which texts another chat server gets told to the users of this one.
use sakura_chat_server.Prelude.{
  ℕ, ◌+◌, ◌≤◌, ◌≡◌, ◌∙◌, refl, sym, subst, Text, text_eq, text_eq_iff, ℤ, is_positive, int_eq,
  int_eq_iff, Bool, true, false, not, ◌||◌, Option, none, some, none-ne-some, List, [], ◌∷◌, ltb,
  ◌==◌, if_either, arith,
}
use sakura_chat_server.Database.{Db, is_friend}
use sakura_chat_server.Database.Sql
use sakura_chat_server.Database.Sql.{
  Conn, Env, Flow, value, returns, raises, sql, statement, pure, query, with_lease, catching, other,
  proceed, undo,
}
use sakura_chat_server.Database.Triple.{idle}
use sakura_chat_server.Wire.{body_limit, valid_text}
use sakura_chat_server.Registry.{Registry, find_user, close_session, check_token, get_session}
use sakura_chat_server.Redis.{get}
use sakura_chat_server.Status.{token_key}
use sakura_chat_server.Persistence.{
  chat_data_invalid, chat_database_failed, Row, Saved, failed, lookup,
}
use sakura_chat_server.Persistence.Store.{stored_text}
use sakura_chat_server.Persistence.Privacy.{message, privacy_allows}
use sakura_chat_server.Persistence.Privacy.Sound.{allowed}
use sakura_chat_server.Accounts.Users.{with_sql}
use sakura_chat_server.Accounts.Users.Login.{Alone}
use sakura_chat_server.Accounts.Friends.{friend_exists}
use sakura_chat_server.Logic.Handlers.{
  ChatState, Parts, Run, ◌>>=◌, give, on_conn, on_redis, session_of,
}
use sakura_chat_server.Logic.Handlers.Quiet.{
  Still, Still-idle, privacy_allows-Still, privacy_allows-true, with_sql-Still, query-Still,
}
use sakura_chat_server.ChatService.{
  Pushed, pushes_text, Served, PeerText, TextChatMsgReq, silent, text_reply, push_stored, text_to,
  text_of_friend, text_allowed, deliver_text, deliver_texts, notify_text_chat_msg,
}

-- The text may be sent to its receiver, and the message is the stored one, to that receiver and with
-- that content, and small enough.
pub record Due (d : Db) (env : Env) (size : Row → ℕ) (q : TextChatMsgReq) (t : PeerText) (m : Row)
    : Type 0 where
  pub may : allowed q.touid q.fromuid message d ≡ true
  pub friends : is_friend q.fromuid q.touid d ≡ true
  pub kept : lookup env q.fromuid t.msgid d ≡ some m
  pub receiver : m.touid ≡ q.touid
  pub content : m.content ≡ t.msgcontent
  pub small : size m ≤ body_limit

-- What may be sent: nothing, or the text of a request to the session of its receiver.
pub data Entitled {S : Type 0} (g : Parts S) (size : Row → ℕ) (d : Db) (q : TextChatMsgReq)
    (s : ChatState S) : List Pushed → Type 0 where
  nothing : Entitled g size d q s []
  the_text :
      (t : PeerText) (session : Text) (m : Row)
      → q.textmsgs ≡ t ∷ []
      → find_user q.touid s.registry.users ≡ some session
      → Due d g.env size q t m
      → Entitled g size d q s (pushes_text session m ∷ [])

-- A session is that of its user.
session_of-find_user :
    {S : Type 0} (g : Parts S) (uid : ℤ) (t : Text) (s : ChatState S)
    → (session_of g uid s).0 ≡ some t
    → find_user uid s.registry.users ≡ some t
unfolding session_of get_session check_token ◌>>=◌
session_of-find_user {S} g uid t s =
    let (token, s1) = on_redis (get g.server (token_key g.to_string uid)) s in
    go token s1 (find_user uid s.registry.users)
  where
    check :
        (u : Text) (token : Option Text) (r : Registry)
        → (check_token u token r).0 ≡ some t
        → some u ≡ some t
    check u none r h = absurd (none-ne-some t h)
    check u (some digest) r h =
        if_either {A = Option Text × Registry} (λ out. out.0 ≡ some t → some u ≡ some t)
          (text_eq digest (r.heap u).auth_digest) (some u, r) (none, close_session u r) (λ _ h. h)
          (λ _ h. absurd (none-ne-some t h)) h

    go :
        (token : Option Text) (s1 : ChatState S) (o : Option Text)
        → let found : Option Text × Registry = elim o [
          | none ↦ (none, s1.registry)
          | some u ↦ check_token u token s1.registry
        ] in
          let out : Option Text × ChatState S = elim o [
            | none ↦ (none, s)
            | some u ↦ (found.0, record s1 { registry = found.1 })
          ] in
          out.0 ≡ some t → o ≡ some t
    go token s1 none h = h
    go token s1 (some u) h = check u token s1.registry h

module _ {S : Type 0} (g : Parts S) where
  session_of-conn : (uid : ℤ) (s : ChatState S) → (session_of g uid s).1.conn ≡ s.conn
  unfolding session_of ◌>>=◌
  session_of-conn uid s = go (find_user uid s.registry.users)
    where
      go :
          (o : Option Text)
          → let out : Option Text × ChatState S = elim o [
            | none ↦ (none, s)
            | some t ↦
                let (token, s1) = on_redis (get g.server (token_key g.to_string uid)) s in
                let (x, r) = get_session uid token s1.registry in (x, record s1 { registry = r })
          ] in
            out.1.conn ≡ s.conn
      go none = refl
      go (some t) = refl

module _ (env : Env) (alone : Alone env) (d : Db) where
  friend_exists-is_friend :
      (a b : ℤ) (c : Conn) → Still d c → (friend_exists env a b c).0 ≡ true → is_friend a b d ≡ true
  unfolding friend_exists with_sql statement
  friend_exists-is_friend a b c v =
      if_either {A = Bool × Conn} (λ out. out.0 ≡ true → is_friend a b d ≡ true)
        (not (is_positive a) || (not (is_positive b) || int_eq a b)) (false, c)
        (with_sql env false false (query env (is_friend a b)) c) (λ _ h. absurd cc)
        (λ _.
          subst
            (λ x.
              (with_sql env false false (query env (is_friend a b)) x).0 ≡ true
              → is_friend a b d ≡ true)
            (sym (Still-idle d c v)) (go c.tick (env.leases c.tick) (env.fault (c.tick + 1))))
    where
      go :
          (n : ℕ) (b' : Bool) (o : Option ℕ)
          → let e = env.interfere (n + 1) d in
            let out : Flow Bool Bool × Conn = elim o [
              | some code ↦ (raises (sql code), idle e (n + 1 + 1))
              | none ↦ (value (is_friend a b e), idle e (n + 1 + 1))
            ] in
            let answer : Bool × Conn = elim b' [
              | false ↦ (false, idle d (n + 1))
              | true ↦ (elim out.0 [ value x ↦ x | returns x ↦ x | raises f ↦ false ], out.1)
            ] in
            answer.0 ≡ true → is_friend a b d ≡ true
      go n false o h = absurd cc
      go n true (some code) h = absurd cc
      go n true none h = subst (λ e. is_friend a b e ≡ true) (alone (n + 1) d) h

  friend_exists-Still : (a b : ℤ) (c : Conn) → Still d c → Still d (friend_exists env a b c).1
  unfolding friend_exists
  friend_exists-Still a b c v =
      if_either {A = Bool × Conn} (λ out. Still d out.1)
        (not (is_positive a) || (not (is_positive b) || int_eq a b)) (false, c)
        (with_sql env false false (query env (is_friend a b)) c) (λ _. v)
        (λ _.
          with_sql-Still env alone false false (query env (is_friend a b)) d c
            (query-Still env alone Bool (is_friend a b) d) v)

  stored_text-lookup :
      (sender : ℤ) (id : Text) (m : Row) (c : Conn)
      → Still d c
      → (stored_text env sender id c).0.message ≡ some m
      → lookup env sender id d ≡ some m
  unfolding stored_text catching with_lease statement pure Sql.◌>>=◌
  stored_text-lookup sender id m c v =
      subst
        (λ x. (stored_text env sender id x).0.message ≡ some m → lookup env sender id d ≡ some m)
        (sym (Still-idle d c v)) (go c.tick (env.leases c.tick) (env.fault (c.tick + 1)))
    where
      go :
          (n : ℕ) (b : Bool) (o : Option ℕ)
          → let e = env.interfere (n + 1) d in
            let row : Flow Saved (Option Row) × Conn = elim o [
              | some code ↦ (raises (sql code), idle e (n + 1 + 1))
              | none ↦ (value (lookup env sender id e), idle e (n + 1 + 1))
            ] in
            let saved : Flow Saved Saved × Conn = elim b [
              | false ↦ (raises other, idle d (n + 1))
              | true ↦
                  let (r, c) = proceed row (λ x. pure (record { error = 0; message = x })) in
                  (r, undo c)
            ] in
            let answer : Saved = elim saved.0 [
              | value a ↦ a
              | returns a ↦ a
              | raises f ↦ failed chat_database_failed
            ] in
            answer.message ≡ some m → lookup env sender id d ≡ some m
      go n false o h = absurd (none-ne-some m h)
      go n true (some code) h = absurd (none-ne-some m h)
      go n true none h = subst (λ e. lookup env sender id e ≡ some m) (alone (n + 1) d) h

module _ {S : Type 0} (g : Parts S) (size : Row → ℕ) (d : Db) (q : TextChatMsgReq)
    (s : ChatState S) where
  -- A call that sends what may be sent.
  abbrev Sends : Served → Type 0
  Sends r = Entitled g size d q s r.pushed

  or-parts : (a b : Bool) → (not a || not b) ≡ false → (a ≡ true) × (b ≡ true)
  or-parts true true h = (refl, refl)
  or-parts true false h = absurd cc
  or-parts false b h = absurd cc

  push_stored-Sends :
      (t : PeerText) (session : Text) (o : Option Row)
      → q.textmsgs ≡ t ∷ []
      → find_user q.touid s.registry.users ≡ some session
      → allowed q.touid q.fromuid message d ≡ true
      → is_friend q.fromuid q.touid d ≡ true
      → ((m : Row) → o ≡ some m → lookup g.env q.fromuid t.msgid d ≡ some m)
      → Sends (push_stored size q t session o)
  push_stored-Sends t session none e f may friends kept = nothing
  push_stored-Sends t session (some m) e f may friends kept =
      if_either {A = Served} Sends
        (not (int_eq m.touid q.touid) || not (text_eq m.content t.msgcontent))
        (silent (text_reply q chat_database_failed)) _ (λ _. nothing)
        (λ same.
          if_either {A = Served} Sends (ltb body_limit (size m))
            (silent (text_reply q chat_data_invalid))
            (record { pushed = pushes_text session m ∷ []; reply = some (text_reply q 0) })
            (λ _. nothing)
            (λ fits.
              let both = or-parts (int_eq m.touid q.touid) (text_eq m.content t.msgcontent) same in
              the_text t session m e f (record {
                may = may;
                friends = friends;
                kept = kept m refl;
                receiver = (int_eq_iff m.touid q.touid).0 both.0;
                content = (text_eq_iff m.content t.msgcontent).0 both.1;
                small = grind (arith, fits);
              })))

  module _ (alone : Alone g.env) where
    text_to-Sends :
        (t : PeerText) (o : Option Text) (s1 : ChatState S)
        → q.textmsgs ≡ t ∷ []
        → ((session : Text) → o ≡ some session → find_user q.touid s.registry.users ≡ o)
        → allowed q.touid q.fromuid message d ≡ true
        → is_friend q.fromuid q.touid d ≡ true
        → Still d s1.conn
        → Sends (text_to g size q t o s1).0
    unfolding text_to ◌>>=◌
    text_to-Sends t none s1 e f may friends v = nothing
    text_to-Sends t (some session) s1 e f may friends v =
        let saved = (stored_text g.env q.fromuid t.msgid s1.conn).0 in
        if_either {A = Served} Sends (not (saved.error == 0))
          (silent (text_reply q chat_database_failed)) (push_stored size q t session saved.message)
          (λ _. nothing)
          (λ _.
            push_stored-Sends t session saved.message e (f session refl) may friends
              (λ m. stored_text-lookup g.env alone d q.fromuid t.msgid m s1.conn v))

    text_of_friend-Sends :
        (t : PeerText) (b : Bool) (s1 : ChatState S)
        → q.textmsgs ≡ t ∷ []
        → allowed q.touid q.fromuid message d ≡ true
        → (b ≡ true → is_friend q.fromuid q.touid d ≡ true)
        → s1.registry ≡ s.registry
        → Still d s1.conn
        → Sends (text_of_friend g size q t b s1).0
    unfolding text_of_friend ◌>>=◌
    text_of_friend-Sends t false s1 e may friends same v = nothing
    text_of_friend-Sends t true s1 e may friends same v =
        let (o, s2) = session_of g q.touid s1 in
        text_to-Sends t o s2 e
          (λ session h.
            subst (λ r. find_user q.touid r.users ≡ o) same
              (session_of-find_user g q.touid session s1 h ∙ sym h))
          may (friends refl) (subst (Still d) (sym (session_of-conn g q.touid s1)) v)

    text_allowed-Sends :
        (t : PeerText) (b : Bool) (s1 : ChatState S)
        → q.textmsgs ≡ t ∷ []
        → (b ≡ true → allowed q.touid q.fromuid message d ≡ true)
        → s1.registry ≡ s.registry
        → Still d s1.conn
        → Sends (text_allowed g size q t b s1).0
    unfolding text_allowed ◌>>=◌
    text_allowed-Sends t false s1 e may same v = nothing
    text_allowed-Sends t true s1 e may same v =
        let (friend, s2) = on_conn (friend_exists g.env q.fromuid q.touid) s1 in
        if_either {A = Run S Served} (λ m. Sends (m s1).0) (not (valid_text t.msgid t.msgcontent))
          (give (silent (text_reply q chat_data_invalid)))
          (on_conn (friend_exists g.env q.fromuid q.touid) >>= text_of_friend g size q t)
          (λ _. nothing)
          (λ _.
            text_of_friend-Sends t friend s2 e (may refl)
              (friend_exists-is_friend g.env alone d q.fromuid q.touid s1.conn v) same
              (friend_exists-Still g.env alone d q.fromuid q.touid s1.conn v))

    deliver_text-Sends :
        (t : PeerText) → q.textmsgs ≡ t ∷ [] → Still d s.conn → Sends (deliver_text g size q t s).0
    unfolding deliver_text ◌>>=◌
    deliver_text-Sends t e v =
        let (may, s1) = on_conn (privacy_allows g.env q.touid q.fromuid message) s in
        if_either {A = Run S Served} (λ m. Sends (m s).0)
          (not (is_positive q.fromuid) || (not (is_positive q.touid) || int_eq q.fromuid q.touid))
          (give (silent (text_reply q chat_data_invalid)))
          (on_conn (privacy_allows g.env q.touid q.fromuid message) >>= text_allowed g size q t)
          (λ _. nothing)
          (λ _.
            text_allowed-Sends t may s1 e
              (privacy_allows-true g.env alone q.touid q.fromuid message d s.conn v) refl
              (privacy_allows-Still g.env alone q.touid q.fromuid message d s.conn v))

    deliver_texts-Sends :
        (ts : List PeerText)
        → q.textmsgs ≡ ts
        → Still d s.conn
        → Sends (deliver_texts g size q ts s).0
    unfolding deliver_texts
    deliver_texts-Sends [] e v = nothing
    deliver_texts-Sends (t ∷ []) e v = deliver_text-Sends t e v
    deliver_texts-Sends (t ∷ u ∷ ts) e v = nothing

-- When no other connection commits anything, and whichever calls fail: another server gets a message sent
-- only by a request with one text, to the session of its receiver, if the tables let the sender write to
-- the receiver and have them as friends, and what is sent is the row that they hold under the id of the
-- text for that sender, with that receiver and content, and fits into a frame. A server without the
-- certificate gets nothing sent.
pub notify_text_chat_msg-Entitled :
    {S : Type 0} (g : Parts S)
    → Alone g.env
    → (size : Row → ℕ) (d : Db) (known : Bool) (q : TextChatMsgReq) (s : ChatState S)
    → Still d s.conn
    → let sent = (notify_text_chat_msg g size known q s).0.pushed in
      Entitled g size d q s sent × (known ≡ false → sent ≡ [])
unfolding notify_text_chat_msg
notify_text_chat_msg-Entitled g alone size d false q s v = (nothing, λ _. refl)
notify_text_chat_msg-Entitled g alone size d true q s v =
    (deliver_texts-Sends g size d q s alone q.textmsgs refl v, λ h. absurd cc)
