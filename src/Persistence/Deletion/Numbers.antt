-- ===== src/Persistence/Deletion/Numbers.antt =====
-- The numbers of the deletion events of an owner (`MysqlDao::DeleteMessage`).
use sakura_chat_server.Prelude.{
  ℕ, ◌≡◌, refl, ℤ, Bool, true, false, not, ◌||◌, Option, none, some, List, [], ◌∷◌, ◌==◌,
  is_positive, if◌then◌else◌,
}
use sakura_chat_server.Database.{Message, DeleteEvent, DeleteHead, Db, is_some}
use sakura_chat_server.Database.Sql.{Env, Conn, Sql, ◌>>=◌, stop, pure, with_lease, catching}
use sakura_chat_server.Database.Triple.{
  Safe, idle, within, statement-within, statement-ends-within, begin-idle, commit-within,
  stop_if-Safe, Safe-bind,
}
use sakura_chat_server.Database.Leases.{Kept, Over, leased-Over}
use sakura_chat_server.Persistence.{chat_data_invalid, chat_database_failed}
use sakura_chat_server.Persistence.Deletion.{
  Deleted, not_deleted, target_of, last_of, find_head, find_event, ensure_head, add_event,
  assign_event, assign_events, erase, delete_in_transaction, delete_message,
}
use sakura_chat_server.Persistence.Deletion.Step.{Inv, ensure_head-Inv, added-Inv}

module _ (env : Env) (others : (n : ℕ) (d : Db) → Inv d → Inv (env.interfere n d)) where
  -- What follows in a transaction whose tables satisfy the invariant.
  abbrev Follows : {A B : Type 0} → (B → Conn → Type 0) → Db → (A → Sql Deleted B) → A → Type 0
  Follows S d k a = (e : Db) (n : ℕ) → Inv e → Safe (Kept Inv) Inv S (k a (within d e n))

  module _ {B : Type 0} (S : B → Conn → Type 0) (d : Db) (v : Inv d) where
    target_of-Kept :
        (o : Option Message) (k : Message → Sql Deleted B) (e : Db) (n : ℕ)
        → Inv e
        → ((m : Message) → Follows S d k m)
        → Safe (Kept Inv) Inv S ((target_of o >>= k) (within d e n))
    unfolding target_of stop pure
    target_of-Kept none k e n w h = Safe-bind (Kept Inv) Inv S (stop _) k (within d e n) v
    target_of-Kept (some m) k e n w h =
        Safe-bind (Kept Inv) Inv S (pure m) k (within d e n) (h m e n w)

    last_of-Kept :
        (owner : ℤ) (o : Option DeleteHead) (k : ℕ → Sql Deleted B) (e : Db) (n : ℕ)
        → find_head owner e.heads ≡ o
        → ((h : DeleteHead)
            → find_head owner e.heads ≡ some h
            → Safe (Kept Inv) Inv S (k h.last_event (within d e n)))
        → Safe (Kept Inv) Inv S ((last_of o >>= k) (within d e n))
    unfolding last_of stop pure
    last_of-Kept owner none k e n f h = Safe-bind (Kept Inv) Inv S (stop _) k (within d e n) v
    last_of-Kept owner (some x) k e n f h =
        Safe-bind (Kept Inv) Inv S (pure x.last_event) k (within d e n) (h x f)

  add_event-Kept :
      (S : Unit {0} → Conn → Type 0) (d : Db) (v : Inv d) (owner : ℤ) (m : Message)
      (head : DeleteHead) (existing : Option DeleteEvent) (e : Db) (n : ℕ)
      → Inv e
      → find_head owner e.heads ≡ some head
      → find_event owner m.message_id e.events ≡ existing
      → ((e' : Db) (n' : ℕ) → Inv e' → S tt (within d e' n'))
      → Safe
          (Kept Inv)
          Inv
          S
          (add_event env owner head.last_event m (is_some existing) (within d e n))
  unfolding add_event pure
  add_event-Kept S d v owner m head (some x) e n w f g h = h e n w
  add_event-Kept S d v owner m head none e n w f g h =
      stop_if-Safe (Kept Inv) Inv S _ _ _ _ (λ _. v)
        λ _. statement-within (Kept Inv) Inv S env _ _ d e n v λ n1.
          statement-ends-within (Kept Inv) Inv S env _ d _ n1 v
            λ n2. h _ n2 (added-Inv owner m head e w f g)

  assign_event-Kept :
      (S : Unit {0} → Conn → Type 0) (d : Db) (v : Inv d) (m : Message) (owner : ℤ) (e : Db) (n : ℕ)
      → Inv e
      → ((e' : Db) (n' : ℕ) → Inv e' → S tt (within d e' n'))
      → Safe (Kept Inv) Inv S (assign_event env m owner (within d e n))
  unfolding assign_event
  assign_event-Kept S d v m owner e n w h =
      let e1 = ensure_head owner e in
      let w1 = ensure_head-Inv owner e w in
      statement-within (Kept Inv) Inv S env _ _ d e n v λ n1.
        statement-within (Kept Inv) Inv S env _ _ d e1 n1 v λ n2.
          last_of-Kept S d v owner _ _ e1 n2 refl λ head f.
            statement-within (Kept Inv) Inv S env _ _ d e1 n2 v
              λ n3. add_event-Kept S d v owner m head _ e1 n3 w1 f refl h

  assign_events-Kept :
      (S : Unit {0} → Conn → Type 0) (d : Db) (v : Inv d) (m : Message) (owners : List ℤ) (e : Db)
      (n : ℕ)
      → Inv e
      → ((e' : Db) (n' : ℕ) → Inv e' → S tt (within d e' n'))
      → Safe (Kept Inv) Inv S (assign_events env m owners (within d e n))
  unfolding assign_events pure
  assign_events-Kept S d v m [] e n w h = h e n w
  assign_events-Kept S d v m (owner ∷ rest) e n w h =
      Safe-bind (Kept Inv) Inv S (assign_event env m owner) _ (within d e n) (
        assign_event-Kept _ d v m owner e n w
          λ e' n' w'. assign_events-Kept S d v m rest e' n' w' h)

  erase-Kept :
      (S : Unit {0} → Conn → Type 0) (d : Db) (v : Inv d) (id : ℕ) (everyone : Bool) (e : Db)
      (n : ℕ)
      → Inv e
      → ((e' : Db) (n' : ℕ) → Inv e' → S tt (within d e' n'))
      → Safe (Kept Inv) Inv S (erase env id everyone (within d e n))
  unfolding erase pure
  erase-Kept S d v id false e n w h = h e n w
  erase-Kept S d v id true e n w h = statement-within (Kept Inv) Inv S env _ _ d e n v λ n1.
      statement-ends-within (Kept Inv) Inv S env _ d _ n1 v
        λ n2. h _ n2 (record { known = w.known; ordered = w.ordered })

  after_events :
      {B : Type 0} (S : B → Conn → Type 0) (d : Db) (v : Inv d) (m : Message) (owners : List ℤ)
      (k : Unit {0} → Sql Deleted B) (e : Db) (n : ℕ)
      → Inv e
      → Follows S d k tt
      → Safe (Kept Inv) Inv S ((assign_events env m owners >>= k) (within d e n))
  after_events S d v m owners k e n w h =
      Safe-bind (Kept Inv) Inv S (assign_events env m owners) k (within d e n)
        (assign_events-Kept (λ a c. Safe (Kept Inv) Inv S (k a c)) d v m owners e n w h)

  after_erase :
      {B : Type 0} (S : B → Conn → Type 0) (d : Db) (v : Inv d) (id : ℕ) (everyone : Bool)
      (k : Unit {0} → Sql Deleted B) (e : Db) (n : ℕ)
      → Inv e
      → Follows S d k tt
      → Safe (Kept Inv) Inv S ((erase env id everyone >>= k) (within d e n))
  after_erase S d v id everyone k e n w h =
      Safe-bind (Kept Inv) Inv S (erase env id everyone) k (within d e n)
        (erase-Kept (λ a c. Safe (Kept Inv) Inv S (k a c)) d v id everyone e n w h)

  delete_in_transaction-Kept :
      (actor : ℤ) (id : ℕ) (everyone : Bool) (d : Db) (n : ℕ)
      → Inv d
      → Safe (Kept Inv) Inv (Kept Inv) (delete_in_transaction env actor id everyone (idle d n))
  unfolding delete_in_transaction pure
  delete_in_transaction-Kept actor id everyone d n v =
      let d' = env.interfere n d in
      let v' = others n d v in
      begin-idle (Kept Inv) Inv (Kept Inv) env _ d n v' λ n1.
        statement-within (Kept Inv) Inv (Kept Inv) env _ _ d' d' n1 v' λ n2.
          target_of-Kept (Kept Inv) d' v' _ _ d' n2 v' λ m e n3 w.
            stop_if-Safe (Kept Inv) Inv (Kept Inv) _ _ _ _ (λ _. v')
              λ _. after_events (Kept Inv) d' v' m _ _ e n3 w λ e1 n4 w1.
                after_erase (Kept Inv) d' v' id everyone _ e1 n4 w1
                  λ e2 n5 w2. commit-within (Kept Inv) Inv (Kept Inv) env _ d' e2 n5 v' w2 λ n6. w2

  pub delete_message-Over :
      (actor : ℤ) (id : ℕ) (everyone : Bool) (c : Conn)
      → Over Inv c
      → Over Inv (delete_message env actor id everyone c).1
  unfolding delete_message catching
  delete_message-Over actor id everyone c v = go (not (is_positive actor) || (id == 0))
    where
      go :
          (b : Bool)
          → Over Inv
              (if b
                then (not_deleted chat_data_invalid, c)
                else catching
                    (with_lease env (delete_in_transaction env actor id everyone))
                    (not_deleted chat_database_failed)
                    c).1
      go true = v
      go false =
          leased-Over Inv env (delete_in_transaction env actor id everyone) c
            (delete_in_transaction-Kept actor id everyone) v

-- Whichever calls of `DeleteMessage` fail, and whatever other connections commit in between, as long
-- as that keeps the invariant: the deletion events of each owner are about different messages and
-- numbered in the order in which they were added, up to the last number in the owner's head, and no
-- transaction is left open.
pub delete_message-Inv :
    (env : Env) (actor : ℤ) (id : ℕ) (everyone : Bool) (d : Db) (n : ℕ)
    → ((i : ℕ) (e : Db) → Inv e → Inv (env.interfere i e))
    → Inv d
    → let c = (delete_message env actor id everyone (idle d n)).1 in (c.saved ≡ none) × Inv c.db
delete_message-Inv env actor id everyone d n others v =
    let over =
      delete_message-Over env others actor id everyone (idle d n)
        (record { none_open = refl; holds = v }) in
    (over.none_open, over.holds)
