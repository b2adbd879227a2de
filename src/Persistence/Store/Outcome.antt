-- ===== src/Persistence/Store/Outcome.antt =====
-- What `StoreTextMessage` answers and stores when nothing fails.
use sakura_chat_server.Prelude.{
  ℕ, zero, suc, ◌+◌, ◌≡◌, refl, sym, ap, ◌∙◌, subst, Text, ℤ, int_eq, Bool, true, false, not, ◌||◌,
  Option, none, some, none-ne-some, is_positive, if◌then◌else◌, ◌==◌,
}
use sakura_chat_server.Wire.{valid_text}
use sakura_chat_server.Database.{Message, Thread, Db, is_some, blocked_between}
use sakura_chat_server.Database.Sql.{
  Env, Conn, Flow, Sql, ◌>>=◌, stop, stop_if, pure, undo, with_lease, statement, begin, commit,
}
use sakura_chat_server.Database.Triple.{idle, within}
use sakura_chat_server.Persistence.{
  chat_data_invalid, chat_not_friend, Saved, failed, Row, row, lookup, find_message,
}
use sakura_chat_server.Persistence.Store.{
  uint64_max, may_chat, find_thread, insert_message, Round, done, again, accepted_before,
  stop_existing, thread_of, next_seq, stop_duplicate, write_message, store_in_thread, store_new,
  store_round, verdict, create_thread, insert_chat, store_rounds, store_text_message,
}
use sakura_chat_server.Persistence.Store.Step.{opened, thread_in, appended, opened-messages}

-- A server that is never disturbed, and whose statements do not fail.
abbrev pub calm : (Text → Text → Bool) → Env
calm same = record {
  fault = λ n. none;
  commit_applied = λ n. true;
  leases = λ n. true;
  interfere = λ n d. d;
  same = same;
}

module _ (same : Text → Text → Bool) (sender receiver : ℤ) (id text : Text) where
  -- The answer once the thread is looked at, whose tables are `e`.
  abbrev pub answer_locked : Db → ℕ → Db → Option Thread → Saved × Db
  answer_locked d thread e none = (failed chat_data_invalid, d)
  answer_locked d thread e (some t) =
      if not (t.status == 0) || (t.last_seq == uint64_max)
      then (failed chat_data_invalid, d)
      else let e' = appended thread (t.last_seq + 1) sender receiver id text e in
        (record { error = 0; message = lookup (calm same) sender id e' }, e')

  -- The answer to a message whose id is new.
  abbrev pub answer_new : Db → Saved × Db
  answer_new d =
      if blocked_between sender receiver d
      then (failed chat_not_friend, d)
      else if not (may_chat sender receiver d)
      then (failed chat_not_friend, d)
      else let (thread, e) = thread_in sender receiver d in
        answer_locked d thread e (find_thread thread e.threads)

  abbrev pub answer_seen : Db → Option Row → Saved × Db
  answer_seen d none = answer_new d
  answer_seen d (some m) = (accepted_before receiver text m, d)

  -- What is answered and what the tables become.
  abbrev pub answer : Db → Saved × Db
  answer d =
      if (not (is_positive sender) || not (is_positive receiver))
        || (int_eq sender receiver || not (valid_text id text))
      then (failed chat_data_invalid, d)
      else answer_seen d (lookup (calm same) sender id d)

  -- A round ends with the answer.
  abbrev Gives : Saved × Db → Flow Round Round × Conn → Type 0
  Gives x out = (verdict true out.0 ≡ done x.0) × ((undo out.1).db ≡ x.1)

  write_message-Gives :
      (d e : Db) (thread seq n : ℕ)
      → let e' = appended thread seq sender receiver id text e in
        Gives
          (record { error = 0; message = lookup (calm same) sender id e' }, e')
          (write_message (calm same) sender receiver id text thread seq (within d e n))
  unfolding write_message insert_message pure ◌>>=◌ statement commit verdict
  write_message-Gives d e thread seq n = (refl, refl)

  next_seq-Gives :
      (d e : Db) (thread n : ℕ) (o : Option Thread) (k : ℕ → Sql Round Round)
      → ((seq n' : ℕ)
          → let e' = appended thread seq sender receiver id text e in
            Gives
              (record { error = 0; message = lookup (calm same) sender id e' }, e')
              (k seq (within d e n')))
      → Gives (answer_locked d thread e o) ((next_seq o >>= k) (within d e n))
  unfolding next_seq ◌>>=◌ stop pure verdict
  next_seq-Gives d e thread n none k h = (refl, refl)
  next_seq-Gives d e thread n (some t) k h = go (not (t.status == 0) || (t.last_seq == uint64_max))
    where
      go :
          (b : Bool)
          → let e' = appended thread (t.last_seq + 1) sender receiver id text e in
            Gives
              (if b
                then (failed chat_data_invalid, d)
                else (record { error = 0; message = lookup (calm same) sender id e' }, e'))
              (((if b then stop (done (failed chat_data_invalid)) else pure (t.last_seq + 1)) >>= k)
                (within d e n))
      go true = (refl, refl)
      go false = h (t.last_seq + 1) n

  stop_duplicate-Gives :
      (x : Saved × Db) (o : Option Message) (k : Unit {0} → Sql Round Round) (c : Conn)
      → o ≡ none
      → Gives x (k tt c)
      → Gives x ((stop_duplicate (calm same) (is_some o) >>= k) c)
  unfolding stop_duplicate ◌>>=◌ pure
  stop_duplicate-Gives x none k c w h = h
  stop_duplicate-Gives x (some m) k c w h = absurd (none-ne-some m (sym w))

  store_in_thread-Gives :
      (d e : Db) (thread n : ℕ)
      → find_message (calm same) sender id e.messages ≡ none
      → Gives
          (answer_locked d thread e (find_thread thread e.threads))
          (store_in_thread (calm same) sender receiver id text thread (within d e n))
  unfolding store_in_thread ◌>>=◌ statement
  store_in_thread-Gives d e thread n w =
      next_seq-Gives d e thread _ (find_thread thread e.threads) _ λ seq n'.
        stop_duplicate-Gives _ (find_message (calm same) sender id e.messages) _ _ w
          (write_message-Gives d e thread seq _)

  stop_if-Gives :
      (b : Bool) (r : Saved) (y : Saved × Db) (k : Unit {0} → Sql Round Round) (d e : Db) (n : ℕ)
      → Gives y (k tt (within d e n))
      → Gives (if b then (r, d) else y) ((stop_if b (done r) >>= k) (within d e n))
  unfolding stop_if ◌>>=◌ verdict
  stop_if-Gives true r y k d e n h = (refl, refl)
  stop_if-Gives false r y k d e n h = h

  thread_of-Gives :
      (x : Saved × Db) (a b : ℤ) (t : ℕ) (k : ℕ → Sql Round Round) (d : Db) (n : ℕ)
      → ((n' : ℕ) → Gives x (k (opened a b t d).0 (within d (opened a b t d).1 n')))
      → Gives x ((thread_of (calm same) a b t >>= k) (within d d n))
  unfolding thread_of ◌>>=◌ statement pure create_thread insert_chat
  thread_of-Gives x a b zero k d n h = h (n + 1 + 1)
  thread_of-Gives x a b (suc t) k d n h = h n

  store_new-Gives :
      (d : Db) (n : ℕ)
      → find_message (calm same) sender id d.messages ≡ none
      → Gives (answer_new d) (store_new (calm same) sender receiver id text (idle d n))
  unfolding store_new ◌>>=◌ statement begin
  store_new-Gives d n w = stop_if-Gives (blocked_between sender receiver d) _ _ _ d d _ (
      stop_if-Gives (not (may_chat sender receiver d)) _ _ _ d d _ (
        thread_of-Gives _ _ _ _ _ d _ λ n'.
          store_in_thread-Gives d _ _ n'
            (ap (find_message (calm same) sender id) (opened-messages _ _ _ d) ∙ w)))

  stop_existing-Gives :
      (o : Option Row) (k : Unit {0} → Sql Round Round) (d : Db) (n : ℕ)
      → (o ≡ none → Gives (answer_new d) (k tt (idle d n)))
      → Gives (answer_seen d o) ((stop_existing receiver text o >>= k) (idle d n))
  unfolding stop_existing ◌>>=◌ stop pure verdict
  stop_existing-Gives none k d n h = h refl
  stop_existing-Gives (some m) k d n h = (refl, refl)

  lookup-none :
      (d : Db)
      → lookup (calm same) sender id d ≡ none
      → find_message (calm same) sender id d.messages ≡ none
  unfolding lookup
  lookup-none d h = go (find_message (calm same) sender id d.messages) h
    where
      go :
          (o : Option Message)
          → let l : Option Row = elim o [ none ↦ none | some m ↦ some (row m d) ] in
            l ≡ none → o ≡ none
      go none e = refl
      go (some m) e = absurd (none-ne-some _ (sym e))

  store_round-Gives :
      (d : Db) (n : ℕ)
      → Gives
          (answer_seen d (lookup (calm same) sender id d))
          (store_round (calm same) sender receiver id text (idle d n))
  unfolding store_round ◌>>=◌ statement
  store_round-Gives d n =
      stop_existing-Gives (lookup (calm same) sender id d) _ d _
        λ w. store_new-Gives d _ (lookup-none d w)

  picked :
      (v : Round) (c : Conn) (rest : Saved × Conn) (x : Saved × Db)
      → v ≡ done x.0
      → c.db ≡ x.1
      → let out : Saved × Conn = elim v [ done s ↦ (s, c) | again ↦ rest ] in
        (out.0 ≡ x.0) × (out.1.db ≡ x.1)
  picked v c rest x e f =
      subst
        (λ w.
          let out : Saved × Conn = elim w [ done s ↦ (s, c) | again ↦ rest ] in
          (out.0 ≡ x.0) × (out.1.db ≡ x.1))
        (sym e) (refl, f)

  store_rounds-answer :
      (d : Db) (n : ℕ)
      → let (s, c) = store_rounds (calm same) sender receiver id text 3 (idle d n) in
        let x = answer_seen d (lookup (calm same) sender id d) in (s ≡ x.0) × (c.db ≡ x.1)
  unfolding store_rounds with_lease
  store_rounds-answer d n = let (e, f) = store_round-Gives d (n + 1) in picked _ _ _ _ e f

  -- When nothing fails and no one interferes, `StoreTextMessage` gives the answer of the tables as
  -- they are: the error of an invalid request; the message itself if its id was used for the same
  -- message, and an error if it was used for another; the error of two users who may not chat; the
  -- error of a closed or exhausted thread; or the message, stored at the next number of the thread,
  -- which is created if there is none. Only then do the tables change.
  pub store_text_message-answer :
      (d : Db) (n : ℕ)
      → let (s, c) = store_text_message (calm same) sender receiver id text (idle d n) in
        (s ≡ (answer d).0) × (c.db ≡ (answer d).1)
  unfolding store_text_message
  store_text_message-answer d n = go (
      (not (is_positive sender) || not (is_positive receiver))
      || (int_eq sender receiver || not (valid_text id text)))
    where
      go :
          (b : Bool)
          → let (s, c) =
              if b
              then (failed chat_data_invalid, idle d n)
              else store_rounds (calm same) sender receiver id text 3 (idle d n) in
            let y =
              if b
              then (failed chat_data_invalid, d)
              else answer_seen d (lookup (calm same) sender id d) in
            (s ≡ y.0) × (c.db ≡ y.1)
      go true = (refl, refl)
      go false = store_rounds-answer d n
