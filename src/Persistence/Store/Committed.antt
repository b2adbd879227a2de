-- ===== src/Persistence/Store/Committed.antt =====
-- What `StoreTextMessage` commits, whatever statement fails and whatever others commit in between.
use sakura_chat_server.Prelude.{
  ℕ, zero, suc, ◌+◌, ◌≡◌, ◌≢◌, refl, sym, ap, ◌∙◌, arith, Text, ℤ, Bool, true, false, not, Option,
  none, some, ltb, ◌==◌, ◌||◌, is_positive, int_eq, if◌then◌else◌,
}
use sakura_chat_server.Wire.{valid_text}
use sakura_chat_server.Database.{Thread, Db, is_some, blocked_between}
use sakura_chat_server.Database.Sql.{Env, Conn, Sql, ◌>>=◌, stop, pure, with_lease}
use sakura_chat_server.Database.Triple.{
  Safe, within, idle, statement-within, statement-idle, begin-idle, commit-within, rollback-within,
  stop_if-Safe, Safe-bind,
}
use sakura_chat_server.Database.Leases.{Kept, Over, leased-Over}
use sakura_chat_server.Persistence.{chat_data_invalid, failed, Row, Saved, find_message}
use sakura_chat_server.Persistence.Store.{
  uint64_max, may_chat, create_thread, insert_chat, insert_message, Round, done, again,
  accepted_before, stop_existing, thread_of, next_seq, stop_duplicate, store_round, write_message,
  store_in_thread, store_new, verdict, store_rounds, store_text_message,
}
use sakura_chat_server.Persistence.Store.Step.{opened, thread_in, appended, Stored, opened-messages}

open_row :
    (status seq : ℕ)
    → (not (status == 0) || (seq == uint64_max)) ≡ false
    → (status ≡ 0) × (seq ≢ uint64_max)
open_row status seq h = ground arith

none_of {ℓ} : {A : Type ℓ} (o : Option A) → is_some o ≡ false → o ≡ none
none_of none h = refl
none_of (some a) h = ground arith

module _ (env : Env) (sender receiver : ℤ) (id text : Text) (P : Db → Type 0)
    (others : (n : ℕ) (d : Db) → P d → P (env.interfere n d))
    (stored : (d e : Db) → Stored env sender receiver id text d e → P d → P e) where
  write_message-Kept :
      (d e : Db) (thread seq n : ℕ)
      → P d
      → P (appended thread seq sender receiver id text e)
      → Safe
          (Kept P)
          P
          (Kept P)
          (write_message env sender receiver id text thread seq (within d e n))
  unfolding write_message insert_message pure
  write_message-Kept d e thread seq n p q =
      statement-within (Kept P) P (Kept P) env _ _ d e n p λ n1.
        statement-within (Kept P) P (Kept P) env _ _ d _ n1 p λ n2.
          statement-within (Kept P) P (Kept P) env _ _ d _ n2 p λ n3.
            commit-within (Kept P) P (Kept P) env _ d _ n3 p q λ n4.
              statement-idle (Kept P) P (Kept P) env _ _ _ n4 (others n4 _ q) λ n5. others n4 _ q

  after-next_seq :
      (o : Option Thread) (k : ℕ → Sql Round Round) (d e : Db) (n : ℕ)
      → P d
      → ((t : Thread)
          → o ≡ some t
          → t.status ≡ 0
          → t.last_seq ≢ uint64_max
          → Safe (Kept P) P (Kept P) (k (t.last_seq + 1) (within d e n)))
      → Safe (Kept P) P (Kept P) ((next_seq o >>= k) (within d e n))
  unfolding next_seq ◌>>=◌ stop pure
  after-next_seq none k d e n p h = p
  after-next_seq (some t) k d e n p h = go (not (t.status == 0) || (t.last_seq == uint64_max)) refl
    where
      go :
          (b : Bool)
          → (not (t.status == 0) || (t.last_seq == uint64_max)) ≡ b
          → Safe (Kept P) P (Kept P) (
              ((if b then stop (done (failed chat_data_invalid)) else pure (t.last_seq + 1)) >>= k)
                (within d e n))
      go true w = p
      go false w = h t refl (open_row t.status t.last_seq w).0 (open_row t.status t.last_seq w).1

  pure-then :
      (k : Unit {0} → Sql Round Round) (c : Conn)
      → Safe (Kept P) P (Kept P) (k tt c)
      → Safe (Kept P) P (Kept P) ((pure tt >>= k) c)
  unfolding pure ◌>>=◌
  pure-then k c h = h

  after-stop_duplicate :
      (b : Bool) (k : Unit {0} → Sql Round Round) (d e : Db) (n : ℕ)
      → P d
      → (b ≡ false → Safe (Kept P) P (Kept P) (k tt (within d e n)))
      → Safe (Kept P) P (Kept P) ((stop_duplicate env b >>= k) (within d e n))
  unfolding stop_duplicate stop
  after-stop_duplicate true k d e n p h =
      Safe-bind (Kept P) P (Kept P) _ k (within d e n) (
        rollback-within (Kept P) P (λ a c. Safe (Kept P) P (Kept P) (k a c)) env _ d e n p
          (λ n'. p))
  after-stop_duplicate false k d e n p h = pure-then k _ (h refl)

  store_in_thread-Kept :
      (d : Db) (n : ℕ)
      → blocked_between sender receiver d ≡ false
      → may_chat sender receiver d ≡ true
      → P d
      → Safe (Kept P) P (Kept P) (
          store_in_thread env sender receiver id text
            (thread_in sender receiver d).0
            (within d (thread_in sender receiver d).1 n))
  unfolding store_in_thread
  store_in_thread-Kept d n b m p =
      let e = (thread_in sender receiver d).1 in
      statement-within (Kept P) P (Kept P) env _ _ d e n p λ n1.
        after-next_seq _ _ d e n1 p λ t found s below.
          statement-within (Kept P) P (Kept P) env _ _ d e n1 p λ n2.
            after-stop_duplicate _ _ d e n2 p λ new. write_message-Kept d e _ _ n2 p (
              stored d _
                (record {
                  thread = t;
                  unblocked = b;
                  friends = m;
                  fresh =
                      ap (find_message env sender id) (sym (opened-messages _ _ _ d))
                      ∙ none_of _ new;
                  found = found;
                  open_thread = s;
                  below = below;
                  result = refl;
                })
                p)

  thread_of-Kept :
      (k : ℕ → Sql Round Round) (a b : ℤ) (t : ℕ) (d : Db) (n : ℕ)
      → P d
      → ((n' : ℕ)
          → Safe (Kept P) P (Kept P) (k (opened a b t d).0 (within d (opened a b t d).1 n')))
      → Safe (Kept P) P (Kept P) ((thread_of env a b t >>= k) (within d d n))
  unfolding thread_of pure create_thread insert_chat
  thread_of-Kept k a b zero d n p h =
      let S : ℕ → Conn → Type 0 = λ t c. Safe (Kept P) P (Kept P) (k t c) in
      Safe-bind (Kept P) P (Kept P) _ k (within d d n) (
        statement-within (Kept P) P S env _ _ d d n p
          λ n1. statement-within (Kept P) P S env _ _ d _ n1 p λ n2. h n2)
  thread_of-Kept k a b (suc t) d n p h =
      Safe-bind (Kept P) P (Kept P) (pure (suc t)) k (within d d n) (h n)

  store_new-Kept :
      (d : Db) (n : ℕ)
      → P d
      → Safe (Kept P) P (Kept P) (store_new env sender receiver id text (idle d n))
  unfolding store_new
  store_new-Kept d n p =
      let d' = env.interfere n d in
      let p' = others n d p in
      begin-idle (Kept P) P (Kept P) env _ d n p' λ n1.
        statement-within (Kept P) P (Kept P) env _ _ d' d' n1 p' λ n2.
          stop_if-Safe (Kept P) P (Kept P) _ _ _ _ (λ _. p')
            λ unblocked. statement-within (Kept P) P (Kept P) env _ _ d' d' n2 p' λ n3.
              stop_if-Safe (Kept P) P (Kept P) _ _ _ _ (λ _. p')
                λ friends. statement-within (Kept P) P (Kept P) env _ _ d' d' n3 p' λ n4.
                  thread_of-Kept _ _ _ _ d' n4 p'
                    λ n5. store_in_thread-Kept d' n5 unblocked (ground arith) p'

  stop_existing-Kept :
      (o : Option Row) (k : Unit {0} → Sql Round Round) (d : Db) (n : ℕ)
      → P d
      → Safe (Kept P) P (Kept P) (k tt (idle d n))
      → Safe (Kept P) P (Kept P) ((stop_existing receiver text o >>= k) (idle d n))
  unfolding stop_existing stop pure
  stop_existing-Kept none k d n p h = Safe-bind (Kept P) P (Kept P) (pure tt) k (idle d n) h
  stop_existing-Kept (some m) k d n p h =
      Safe-bind (Kept P) P (Kept P) (stop (done (accepted_before receiver text m))) k (idle d n) p

  store_round-Kept :
      (d : Db) (n : ℕ)
      → P d
      → Safe (Kept P) P (Kept P) (store_round env sender receiver id text (idle d n))
  unfolding store_round
  store_round-Kept d n p =
      let p' = others n d p in
      statement-idle (Kept P) P (Kept P) env _ _ d n p'
        λ n1. stop_existing-Kept _ _ _ n1 p' (store_new-Kept _ n1 p')

  round-Over :
      (c : Conn) → Over P c → Over P (with_lease env (store_round env sender receiver id text) c).1
  round-Over c v = leased-Over P env (store_round env sender receiver id text) c store_round-Kept v

  store_rounds-Over :
      (left : ℕ) (c : Conn) → Over P c → Over P (store_rounds env sender receiver id text left c).1
  unfolding store_rounds
  store_rounds-Over zero c v = v
  store_rounds-Over (suc left) c v =
      let (r, c') = with_lease env (store_round env sender receiver id text) c in
      go (verdict (ltb 0 left) r) c' (round-Over c v) (store_rounds-Over left)
    where
      go :
          (x : Round) (c' : Conn)
          → Over P c'
          → ((c'' : Conn)
              → Over P c''
              → Over P (store_rounds env sender receiver id text left c'').1)
          → let out : Saved × Conn = elim x [
            | done s ↦ (s, c')
            | again ↦ store_rounds env sender receiver id text left c'
          ] in
            Over P out.1
      go (done s) c' w rest = w
      go again c' w rest = rest c' w

  -- Whatever is kept by the others' commits and by the storing of the message is kept by
  -- `StoreTextMessage`, whichever statements, commits and rollbacks fail; and it leaves no
  -- transaction open.
  pub store_text_message-Over :
      (c : Conn) → Over P c → Over P (store_text_message env sender receiver id text c).1
  unfolding store_text_message
  store_text_message-Over c v = go (
      (not (is_positive sender) || not (is_positive receiver))
      || (int_eq sender receiver || not (valid_text id text)))
    where
      go :
          (b : Bool)
          → Over P
              (if b
                then (failed chat_data_invalid, c)
                else store_rounds env sender receiver id text 3 c).1
      go true = v
      go false = store_rounds-Over 3 c v
