-- ===== src/Persistence/Retention/Erases.antt =====
-- What one `DeleteMessage` does to the rows of the messages (Common/src/ChatPersistence.cpp), when
-- nobody else writes and whichever statement fails.
use sakura_chat_server.Prelude.{
  ℕ, ◌+◌, ◌≡◌, ◌≢◌, refl, sym, ap, ◌∙◌, subst, ℤ, Bool, true, false, not, ◌||◌, Option, none, some,
  List, [], ◌∷◌, ◌==◌, is_positive, if_either, arith,
}
use sakura_chat_server.Database.{Message, DeleteHead, Db}
use sakura_chat_server.Database.Sql.{
  Env, Conn, Flow, value, returns, raises, other, Sql, ◌>>=◌, ◌>>◌, stop, pure, commit, with_lease,
  catching, undo,
}
use sakura_chat_server.Database.Triple.{
  Safe, committed, idle, within, statement-within, statement-ends-within, begin-idle, commit-within,
  stop_if-Safe, Safe-bind,
}
use sakura_chat_server.Persistence.{chat_data_invalid, chat_database_failed, int_or_zero}
use sakura_chat_server.Persistence.Deletion.{
  Deleted, not_deleted, owners_of, erase_message, target_of, last_of, add_event, assign_event,
  assign_events, erase, delete_in_transaction, delete_message,
}
use sakura_chat_server.Accounts.Users.Login.{Alone}
use sakura_chat_server.Persistence.Retention.Rows.{
  Rows, Gone, Rows-refl, erase_message-Rows, erase_message-Gone,
}

-- Only rows with this id are erased, and all of them are if the reply is without an error.
pub record Erases (id : ℕ) (ms : List Message) (r : Deleted) (d : Db) : Type 0 where
  pub rows : Rows (λ x. x ≡ id) ms d.messages
  pub gone : r.error ≡ 0 → Gone id d.messages

module _ (env : Env) (id : ℕ) (ms : List Message) where
  abbrev Kept : Db → Type 0
  Kept d = Rows (λ x. x ≡ id) ms d.messages

  -- How a block that replies ends.
  abbrev Ok : Deleted → Conn → Type 0
  Ok r c = Erases id ms r (committed c)

  same-Kept : (d : Db) → d.messages ≡ ms → Kept d
  same-Kept d e = subst (λ x. Rows (λ y. y ≡ id) ms x) (sym e) (Rows-refl (λ y. y ≡ id) ms)

  module _ (d : Db) (same : d.messages ≡ ms) where
    refused : (code : ℕ) → code ≢ 0 → (e : Db) (n : ℕ) → Ok (not_deleted code) (within d e n)
    refused code nonzero e n = record { rows = same-Kept d same; gone = λ h. absurd (nonzero h) }

    target_of-Safe :
        {B : Type 0} (S : B → Conn → Type 0) (o : Option Message) (k : Message → Sql Deleted B)
        (e : Db) (n : ℕ)
        → ((m : Message) → Safe Ok Kept S (k m (within d e n)))
        → Safe Ok Kept S ((target_of o >>= k) (within d e n))
    unfolding target_of stop pure
    target_of-Safe S none k e n h =
        Safe-bind Ok Kept S (stop (not_deleted chat_data_invalid)) k (within d e n)
          (refused chat_data_invalid (λ z. absurd (omega (arith, z))) e n)
    target_of-Safe S (some m) k e n h = Safe-bind Ok Kept S (pure m) k (within d e n) (h m)

    last_of-Safe :
        {B : Type 0} (S : B → Conn → Type 0) (o : Option DeleteHead) (k : ℕ → Sql Deleted B)
        (e : Db) (n : ℕ)
        → ((last : ℕ) → Safe Ok Kept S (k last (within d e n)))
        → Safe Ok Kept S ((last_of o >>= k) (within d e n))
    unfolding last_of stop pure
    last_of-Safe S none k e n h =
        Safe-bind Ok Kept S (stop (not_deleted chat_database_failed)) k (within d e n)
          (refused chat_database_failed (λ z. absurd (omega (arith, z))) e n)
    last_of-Safe S (some x) k e n h =
        Safe-bind Ok Kept S (pure x.last_event) k (within d e n) (h x.last_event)

    -- What follows goes well from any tables with the messages of `e`.
    abbrev Goes : (Unit {0} → Conn → Type 0) → Db → Type 0
    Goes S e = (e' : Db) (n : ℕ) → e'.messages ≡ e.messages → S tt (within d e' n)

    add_event-Safe :
        (S : Unit {0} → Conn → Type 0) (owner : ℤ) (last : ℕ) (m : Message) (known : Bool) (e : Db)
        (n : ℕ)
        → Goes S e
        → Safe Ok Kept S (add_event env owner last m known (within d e n))
    unfolding add_event pure
    add_event-Safe S owner last m true e n h = h e n refl
    add_event-Safe S owner last m false e n h =
        stop_if-Safe Ok Kept S _ _ _ _
          (λ _. refused chat_data_invalid (λ z. absurd (omega (arith, z))) e n)
          λ _.
            statement-within Ok Kept S env _ _ d e n (same-Kept d same) λ n1.
              statement-ends-within Ok Kept S env _ d _ n1 (same-Kept d same) λ n2. h _ n2 refl

    assign_event-Safe :
        (S : Unit {0} → Conn → Type 0) (m : Message) (owner : ℤ) (e : Db) (n : ℕ)
        → Goes S e
        → Safe Ok Kept S (assign_event env m owner (within d e n))
    unfolding assign_event
    assign_event-Safe S m owner e n h =
        let v = same-Kept d same in
        statement-within Ok Kept S env _ _ d e n v λ n1.
          statement-within Ok Kept S env _ _ d _ n1 v λ n2. last_of-Safe S _ _ _ n2 λ last.
            statement-within Ok Kept S env _ _ d _ n2 v λ n3. add_event-Safe S owner last m _ _ n3 h

    assign_events-Safe :
        (S : Unit {0} → Conn → Type 0) (m : Message) (owners : List ℤ) (e : Db) (n : ℕ)
        → Goes S e
        → Safe Ok Kept S (assign_events env m owners (within d e n))
    unfolding assign_events pure
    assign_events-Safe S m [] e n h = h e n refl
    assign_events-Safe S m (owner ∷ rest) e n h =
        Safe-bind Ok Kept S (assign_event env m owner) _ (within d e n) (
          assign_event-Safe _ m owner e n
            λ e' n' w. assign_events-Safe S m rest e' n' λ e2 n2 w2. h e2 n2 (w2 ∙ w))

    erase-Safe :
        (S : Unit {0} → Conn → Type 0) (e : Db) (n : ℕ)
        → e.messages ≡ ms
        → ((e' : Db) (n' : ℕ) → Kept e' → Gone id e'.messages → S tt (within d e' n'))
        → Safe Ok Kept S (erase env id true (within d e n))
    unfolding erase
    erase-Safe S e n w h = statement-within Ok Kept S env _ _ d e n (same-Kept d same) λ n1.
        statement-ends-within Ok Kept S env _ d _ n1 (same-Kept d same) λ n2.
          h _ n2
            (subst (λ x. Rows (λ y. y ≡ id) ms (erase_message id x)) (sym w)
              (erase_message-Rows id ms))
            (erase_message-Gone id e.messages)

  -- `commit` and the reply.
  abbrev finish : Sql Deleted Deleted
  finish = commit env >> pure (record { error = 0; message_id = some id; for_everyone = true })

  after_erase :
      (d : Db) (same : d.messages ≡ ms) (e : Db) (n : ℕ)
      → e.messages ≡ ms
      → Safe Ok Kept Ok ((erase env id true >> finish) (within d e n))
  unfolding pure
  after_erase d same e n w =
      Safe-bind Ok Kept Ok (erase env id true) (λ _. finish) (within d e n)
        (erase-Safe d same (λ _ c. Safe Ok Kept Ok (finish c)) e n w
          λ e2 n2 w2 g2.
            commit-within Ok Kept Ok env
              (λ _. pure (record { error = 0; message_id = some id; for_everyone = true })) d e2 n2
              (same-Kept d same) w2 λ n3. record { rows = w2; gone = λ _. g2 })

  delete_in_transaction-Safe :
      (actor : ℤ) (d : Db) (n : ℕ)
      → (env.interfere n d).messages ≡ ms
      → Safe Ok Kept Ok (delete_in_transaction env actor id true (idle d n))
  unfolding delete_in_transaction
  delete_in_transaction-Safe actor d n same =
      let d' = env.interfere n d in
      let v = same-Kept d' same in
      begin-idle Ok Kept Ok env _ d n v λ n1. statement-within Ok Kept Ok env _ _ d' d' n1 v λ n2.
        target_of-Safe d' same Ok _ _ d' n2 λ m.
          stop_if-Safe Ok Kept Ok _ _ _ _
            (λ _. refused d' same chat_data_invalid (λ z. absurd (omega (arith, z))) d' n2)
            λ _.
              Safe-bind Ok Kept Ok
                (assign_events env m (owners_of actor true (int_or_zero m.receiver_uid)))
                (λ _. erase env id true >> finish) (within d' d' n2)
                (assign_events-Safe d' same
                  (λ _ c. Safe Ok Kept Ok ((erase env id true >> finish) c)) m _ d' n2
                  λ e1 n3 w1. after_erase d' same e1 n3 (w1 ∙ same))

-- The end of a deletion for everyone.
pub record Deletes (id : ℕ) (ms : List Message) (out : Deleted × Conn) : Type 0 where
  pub closed : out.1.saved ≡ none
  pub erases : Erases id ms out.0 out.1.db

not_deleted-Erases :
    (id code : ℕ) (ms : List Message)
    → code ≢ 0
    → (d : Db) → Rows (λ x. x ≡ id) ms d.messages
    → Erases id ms (not_deleted code) d
not_deleted-Erases id code ms nonzero d r = record { rows = r; gone = λ h. absurd (nonzero h) }

-- The end of the lease leaves what was committed.
undo-Deletes :
    (id : ℕ) (ms : List Message) (r : Deleted) (c : Conn) (o : Option Db)
    → Erases id ms r (committed (record c { saved = o }))
    → Deletes id ms (r, undo (record c { saved = o }))
undo-Deletes id ms r c none h = record { closed = refl; erases = h }
undo-Deletes id ms r c (some before) h = record { closed = refl; erases = h }

-- The reply of a block, at the end of its lease.
undone :
    (env : Env) (id : ℕ) (ms : List Message) (out : Flow Deleted Deleted × Conn)
    → Safe (Ok env id ms) (Kept env id ms) (Ok env id ms) out
    → let reply : Deleted = elim out.0 [
      | value a ↦ a
      | returns a ↦ a
      | raises e ↦ not_deleted chat_database_failed
    ] in
      Deletes id ms (reply, undo out.1)
undone env id ms (value a, c) h = undo-Deletes id ms a c c.saved h
undone env id ms (returns a, c) h = undo-Deletes id ms a c c.saved h
undone env id ms (raises e, c) h =
    undo-Deletes id ms (not_deleted chat_database_failed) c c.saved (
      not_deleted-Erases id chat_database_failed ms (λ z. absurd (omega (arith, z))) (committed c)
        h)

pub delete_message-Deletes :
    (env : Env) (alone : Alone env) (actor : ℤ) (id : ℕ) (c : Conn)
    → c.saved ≡ none
    → Deletes id c.db.messages (delete_message env actor id true c)
unfolding delete_message catching with_lease
delete_message-Deletes env alone actor id c closed =
    if_either {A = Deleted × Conn} (Deletes id c.db.messages) (not (is_positive actor) || (id == 0))
      (not_deleted chat_data_invalid, c)
      (catching (with_lease env (delete_in_transaction env actor id true))
        (not_deleted chat_database_failed) c)
      (λ _. record {
        closed = closed;
        erases =
            not_deleted-Erases id chat_data_invalid c.db.messages (λ z. absurd (omega (arith, z)))
              c.db (Rows-refl (λ x. x ≡ id) c.db.messages);
      })
      (λ _.
        subst
          (λ o. Deletes id c.db.messages (
            catching (with_lease env (delete_in_transaction env actor id true))
              (not_deleted chat_database_failed) (record c { saved = o })))
          (sym closed) (go c.db c.tick (env.leases c.tick)))
  where
    go :
        (d : Db) (n : ℕ) (b : Bool)
        → let block = delete_in_transaction env actor id true (idle d (n + 1)) in
          let out : Flow Deleted Deleted × Conn = elim b [
            | false ↦ (raises other, idle d (n + 1))
            | true ↦ (block.0, undo block.1)
          ] in
          let reply : Deleted = elim out.0 [
            | value a ↦ a
            | returns a ↦ a
            | raises e ↦ not_deleted chat_database_failed
          ] in
          Deletes id d.messages (reply, out.1)
    go d n false = record {
      closed = refl;
      erases =
          not_deleted-Erases id chat_database_failed d.messages (λ z. absurd (omega (arith, z))) d
            (Rows-refl (λ x. x ≡ id) d.messages);
    }
    go d n true =
        undone env id d.messages (delete_in_transaction env actor id true (idle d (n + 1))) (
          delete_in_transaction-Safe env id d.messages actor d (n + 1)
            (ap (λ e. e.messages) (alone (n + 1) d)))
