-- ===== src/Persistence/Retention/Expired.antt =====
-- Which messages `MysqlDao::ExpireMessages` (Common/src/ChatPersistence.cpp) erases.
use sakura_chat_server.Prelude.{
  ℕ, ◌+◌, ◌≤◌, ◌<◌, ◌≡◌, refl, sym, subst, ◌⊎◌, inl, inr, ℤ, Bool, true, false, ◌&&◌, Option, none,
  some, List, [], ◌∷◌, length, length-take-le, ◌==◌, ==_iff, All, arith,
}
use sakura_chat_server.Database.{Message, Db}
use sakura_chat_server.Database.Sql.{
  Env, Conn, Flow, value, raises, sql, other, undo, statement, with_lease,
}
use sakura_chat_server.Database.Triple.{idle}
use sakura_chat_server.Persistence.Deletion.{delete_message}
use sakura_chat_server.Accounts.Users.Login.{Alone}
use sakura_chat_server.Persistence.Retention.{
  senders, sorted, due_only, due_messages, delete_due, delete_scanned, expire_messages,
}
use sakura_chat_server.Persistence.Retention.Rows.{
  Rows, Gone, Rows-refl, Rows-trans, Rows-imp, Gone-Rows, absent-Gone,
}
use sakura_chat_server.Persistence.Retention.Erases.{delete_message-Deletes}
use sakura_chat_server.Persistence.Retention.Scan.{DueIn, due_messages-DueIn, due_messages_complete}

-- A message among those that the scan found.
abbrev pub Among : List (ℤ × ℕ) → ℕ → Type 0
Among [] id = ⊥
Among (p ∷ ps) id = (p.1 ≡ id) ⊎ Among ps id

among_of :
    (P : ℕ → Type 0) (ps : List (ℤ × ℕ)) → All (λ p. P p.1) ps → (id : ℕ) → Among ps id → P id
among_of P [] h id a = absurd a
among_of P (p ∷ ps) (q, h) id (inl e) = subst P e q
among_of P (p ∷ ps) (q, h) id (inr a) = among_of P ps h id a

-- The end of the loop over these messages.
record Passed (due : List (ℤ × ℕ)) (ms : List Message) (out : Bool × Conn) : Type 0 where
  closed : out.1.saved ≡ none
  rows : Rows (Among due) ms out.1.db.messages
  gone : out.0 ≡ true → All (λ p. Gone p.1 out.1.db.messages) due

both : (n : ℕ) (b : Bool) → (n == 0) && b ≡ true → (n ≡ 0) × (b ≡ true)
both n true h = ((==_iff n 0).0 (ground arith), refl)
both n false h = absurd (ground arith)

module _ (env : Env) (alone : Alone env) where
  delete_due-Passed :
      (due : List (ℤ × ℕ)) (c : Conn)
      → c.saved ≡ none
      → Passed due c.db.messages (delete_due env due c)
  unfolding delete_due
  delete_due-Passed [] c closed = record {
    closed = closed;
    rows = Rows-refl (Among []) c.db.messages;
    gone = λ h. tt;
  }
  delete_due-Passed ((sender, id) ∷ rest) c closed =
      let (reply, c1) = delete_message env sender id true c in
      let first = delete_message-Deletes env alone sender id c closed in
      let (ok, c2) = delete_due env rest c1 in
      let others = delete_due-Passed rest c1 first.closed in
      record {
        closed = others.closed;
        rows =
            Rows-trans (Among ((sender, id) ∷ rest)) c.db.messages c1.db.messages c2.db.messages
              (Rows-imp (λ x. x ≡ id) (Among ((sender, id) ∷ rest)) (λ x e. inl (sym e))
                c.db.messages c1.db.messages first.erases.rows)
              (Rows-imp (Among rest) (Among ((sender, id) ∷ rest)) (λ x a. inr a) c1.db.messages
                c2.db.messages others.rows);
        gone = λ h.
            let (fine, rest_fine) = both reply.error ok h in
            (
              Gone-Rows (Among rest) id c1.db.messages c2.db.messages (first.erases.gone fine)
                  others.rows,
              others.gone rest_fine,
            );
      }

  -- The end of a pass that starts with these tables.
  pub record Expired (d : Db) (out : Bool × Conn) : Type 0 where
    pub closed : out.1.saved ≡ none
    pub few : length (due_messages d) ≤ 20
    pub rows :
        Rows
          (λ id. DueIn d.now d.expiry id × Among (due_messages d) id)
          d.messages
          out.1.db.messages
    pub gone : out.0 ≡ true → All (λ p. Gone p.1 out.1.db.messages) (due_messages d)
    pub all_gone :
        out.0 ≡ true
        → length (due_messages d) < 20
        → All (λ e. e.expires_at ≤ d.now → Gone e.message_id out.1.db.messages) d.expiry

  due_messages_few : (d : Db) → length (due_messages d) ≤ 20
  unfolding due_messages
  due_messages_few d = length-take-le 20 (senders d.messages (sorted (due_only d.now d.expiry)))

  Expired-Passed :
      (d : Db) (out : Bool × Conn) → Passed (due_messages d) d.messages out → Expired d out
  Expired-Passed d out p = record {
    closed = p.closed;
    few = due_messages_few d;
    rows =
        Rows-imp (Among (due_messages d))
          (λ id. DueIn d.now d.expiry id × Among (due_messages d) id)
          (λ id a.
            (among_of (DueIn d.now d.expiry) (due_messages d) (due_messages-DueIn d) id a, a))
          d.messages out.1.db.messages p.rows;
    gone = p.gone;
    all_gone = λ h few.
        due_messages_complete (λ id. Gone id out.1.db.messages) d
          (λ id e.
            Gone-Rows (Among (due_messages d)) id d.messages out.1.db.messages
              (absent-Gone id d.messages e) p.rows)
          few (p.gone h);
  }

  failed-Expired : (d : Db) (n : ℕ) → Expired d (false, idle d n)
  failed-Expired d n =
      Expired-Passed d (false, idle d n)
        (record {
          closed = refl;
          rows = Rows-refl (Among (due_messages d)) d.messages;
          gone = λ h. absurd cc;
        })

  -- A pass, when nobody else writes and whichever of its calls fail: it erases only messages whose time
  -- is up, at most twenty; all other rows stay as they are, and no transaction is left open. If it
  -- reports success, every message that the scan found is erased, and if these were fewer than twenty,
  -- so is every message whose time is up.
  pub expire_messages-Expired : (d : Db) (n : ℕ) → Expired d (expire_messages env (idle d n))
  unfolding expire_messages delete_scanned with_lease statement
  expire_messages-Expired d n =
      go (env.leases n) (env.fault (n + 1)) (env.interfere (n + 1) d) (alone (n + 1) d)
    where
      go :
          (b : Bool) (o : Option ℕ) (e : Db)
          → e ≡ d
          → let found : Flow (List (ℤ × ℕ)) (List (ℤ × ℕ)) × Conn = elim o [
            | some code ↦ (raises (sql code), idle e (n + 1 + 1))
            | none ↦ (value (due_messages e), idle e (n + 1 + 1))
          ] in
            let leased : Flow (List (ℤ × ℕ)) (List (ℤ × ℕ)) × Conn = elim b [
              | false ↦ (raises other, idle d (n + 1))
              | true ↦ (found.0, undo found.1)
            ] in
            Expired d (delete_scanned env leased)
      go false o e p = failed-Expired d (n + 1)
      go true (some code) e p =
          subst (λ x. Expired x (false, idle e (n + 1 + 1))) p (failed-Expired e _)
      go true none e p =
          let out = delete_due env (due_messages e) (idle e (n + 1 + 1)) in
          subst (λ x. Expired x out) p
            (Expired-Passed e out (delete_due-Passed (due_messages e) (idle e (n + 1 + 1)) refl))
