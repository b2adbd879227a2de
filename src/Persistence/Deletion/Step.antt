-- ===== src/Persistence/Deletion/Step.antt =====
-- What the assignment of a deletion event does to the tables.
use sakura_chat_server.Prelude.{
  ℕ, ◌+◌, ◌≤◌, ◌<◌, ◌≡◌, ◌≢◌, refl, sym, ap, ◌∙◌, subst, ℤ, Bool, true, false, ◌&&◌, Option, none,
  some, none-ne-some, List, [], ◌∷◌, int_eq, int_eq_iff, ==_iff, if◌then◌else◌, arith, All,
  Pairwise, All-imp, All-zip, first-none,
}
use sakura_chat_server.Database.{Message, DeleteEvent, DeleteHead, Db}
use sakura_chat_server.Persistence.Deletion.{
  find_head, with_head, ensure_head, find_event, insert_event, advance_head,
}

abbrev pub number_of : Option DeleteHead → ℕ
number_of none = 0
number_of (some h) = h.last_event

-- The last number that an owner was given.
abbrev pub last_event : ℤ → List DeleteHead → ℕ
last_event owner hs = number_of (find_head owner hs)

-- Two events of an owner: the newer one has the greater number, and is about another message.
pub record Later (new old : DeleteEvent) : Type 0 where
  pub numbers : old.event_seq < new.event_seq
  pub messages : old.message_id ≢ new.message_id

pub record Inv (d : Db) : Type 0 where
  pub known : All (λ e. e.event_seq ≤ last_event e.owner_uid d.heads) d.events
  pub ordered :
      Pairwise (λ new old. int_eq old.owner_uid new.owner_uid ≡ true → Later new old) d.events

with_head-last :
    (owner o : ℤ) (hs : List DeleteHead)
    → last_event o (with_head owner hs (find_head owner hs)) ≡ last_event o hs
unfolding find_head
with_head-last owner o hs = go (find_head owner hs) refl
  where
    fresh :
        (b : Bool)
        → int_eq owner o ≡ b
        → find_head owner hs ≡ none
        → number_of
            (if b then some (record { owner_uid = owner; last_event = 0 }) else find_head o hs)
          ≡ number_of (find_head o hs)
    fresh true e f =
        ap number_of (sym (subst (λ x. find_head x hs ≡ none) ((int_eq_iff owner o).0 e) f))
    fresh false e f = refl

    go :
        (x : Option DeleteHead)
        → find_head owner hs ≡ x
        → last_event o (with_head owner hs x) ≡ last_event o hs
    go none e = fresh (int_eq owner o) refl e
    go (some h) e = refl

-- The owner's own number after the update, once it has a head.
advance_head-own :
    (owner : ℤ) (seq : ℕ) (h : DeleteHead) (hs : List DeleteHead)
    → find_head owner hs ≡ some h
    → last_event owner (advance_head owner seq hs) ≡ seq
unfolding find_head advance_head
advance_head-own owner seq h [] e = absurd (none-ne-some h e)
advance_head-own owner seq h (x ∷ hs) e =
    go (int_eq x.owner_uid owner) refl e (advance_head-own owner seq h hs)
  where
    y : DeleteHead
    y = record x { last_event = seq }

    go :
        (b : Bool)
        → int_eq x.owner_uid owner ≡ b
        → (if b then some x else find_head owner hs) ≡ some h
        → (find_head owner hs ≡ some h → last_event owner (advance_head owner seq hs) ≡ seq)
        → last_event owner ((if b then y else x) ∷ advance_head owner seq hs) ≡ seq
    go true w f rest =
        ap (λ c. number_of (if c then some y else find_head owner (advance_head owner seq hs))) w
    go false w f rest =
        ap (λ c. number_of (if c then some x else find_head owner (advance_head owner seq hs))) w
        ∙ rest f

-- The numbers of the others stay.
advance_head-other :
    (owner o : ℤ) (seq : ℕ) (hs : List DeleteHead)
    → int_eq o owner ≡ false
    → last_event o (advance_head owner seq hs) ≡ last_event o hs
unfolding find_head advance_head
advance_head-other owner o seq [] e = refl
advance_head-other owner o seq (x ∷ hs) e =
    go (int_eq x.owner_uid owner) (int_eq x.owner_uid o) refl refl
      (advance_head-other owner o seq hs e)
  where
    y : DeleteHead
    y = record x { last_event = seq }

    same :
        (z : Bool)
        → last_event o (advance_head owner seq hs) ≡ last_event o hs
        → number_of (if z then some x else find_head o (advance_head owner seq hs))
          ≡ number_of (if z then some x else find_head o hs)
    same true h = refl
    same false h = h

    own : int_eq x.owner_uid owner ≡ true → int_eq x.owner_uid o ≡ true → int_eq o owner ≡ true
    own f g =
        (int_eq_iff o owner).1
          (sym ((int_eq_iff x.owner_uid o).0 g) ∙ (int_eq_iff x.owner_uid owner).0 f)

    go :
        (b c : Bool)
        → int_eq x.owner_uid owner ≡ b
        → int_eq x.owner_uid o ≡ c
        → last_event o (advance_head owner seq hs) ≡ last_event o hs
        → last_event o ((if b then y else x) ∷ advance_head owner seq hs) ≡ last_event o (x ∷ hs)
    go true true f g h = absurd (let r = own f g in ground arith)
    go true false f g h =
        ap (λ z. number_of (if z then some y else find_head o (advance_head owner seq hs))) g
        ∙ (h ∙ sym (ap (λ z. number_of (if z then some x else find_head o hs)) g))
    go false c f g h = same (int_eq x.owner_uid o) h

both_tests : (a b : Bool) → a ≡ true → b ≡ true → (a && b) ≡ false → ⊥
both_tests a b h k l = ground arith

-- The new event is later than those that its owner has.
new-Later :
    (owner : ℤ) (m : Message) (d : Db)
    → Inv d
    → find_event owner m.message_id d.events ≡ none
    → All
        (λ old.
          int_eq old.owner_uid owner ≡ true
          → Later
              (record {
                owner_uid = owner;
                event_seq = last_event owner d.heads + 1;
                message_id = m.message_id;
                sender_uid = m.sender_uid;
                client_msg_id = m.client_msg_id;
              })
              old)
        d.events
unfolding find_event
new-Later owner m d v e =
    All-zip _ _ _
      (λ old known absent own. record {
        numbers = omega (
          arith,
          subst (λ o. old.event_seq ≤ last_event o d.heads) ((int_eq_iff old.owner_uid owner).0 own)
              known,
        );
        messages = λ same. both_tests _ _ own ((==_iff old.message_id m.message_id).1 same) absent;
      })
      d.events v.known (first-none _ d.events e)

pub ensure_head-Inv : (owner : ℤ) (d : Db) → Inv d → Inv (ensure_head owner d)
unfolding ensure_head
ensure_head-Inv owner d v = record {
  known =
      All-imp _ _
        (λ e k. subst (λ n. e.event_seq ≤ n) (sym (with_head-last owner e.owner_uid d.heads)) k)
        d.events v.known;
  ordered = v.ordered;
}

-- The numbers of every owner after an update to a greater one.
advanced-le :
    (owner o : ℤ) (h : DeleteHead) (hs : List DeleteHead) (n : ℕ)
    → find_head owner hs ≡ some h
    → n ≤ last_event o hs
    → n ≤ last_event o (advance_head owner (h.last_event + 1) hs)
advanced-le owner o h hs n e k = go (int_eq o owner) refl
  where
    go :
        (b : Bool)
        → int_eq o owner ≡ b
        → n ≤ last_event o (advance_head owner (h.last_event + 1) hs)
    go true f =
        let same : o ≡ owner = (int_eq_iff o owner).0 f in
        let below : n ≤ h.last_event =
          subst (λ x. n ≤ x) (ap (λ z. last_event z hs) same ∙ ap number_of e) k in
        subst (λ z. n ≤ last_event z (advance_head owner (h.last_event + 1) hs)) (sym same)
          (omega (arith, advance_head-own owner (h.last_event + 1) h hs e, below))
    go false f = subst (λ x. n ≤ x) (sym (advance_head-other owner o (h.last_event + 1) hs f)) k

pub added-Inv :
    (owner : ℤ) (m : Message) (h : DeleteHead) (d : Db)
    → Inv d
    → find_head owner d.heads ≡ some h
    → find_event owner m.message_id d.events ≡ none
    → let e = insert_event owner (h.last_event + 1) m d in
      Inv (record e { heads = advance_head owner (h.last_event + 1) e.heads })
unfolding insert_event
added-Inv owner m h d v e absent = record {
  known = (
    omega (arith, advance_head-own owner (h.last_event + 1) h d.heads e),
    All-imp _ _ (λ old k. advanced-le owner old.owner_uid h d.heads old.event_seq e k) d.events
        v.known,
  );
  ordered = (
    subst
        (λ n.
          All
            (λ old.
              int_eq old.owner_uid owner ≡ true
              → Later
                  (record {
                    owner_uid = owner;
                    event_seq = n + 1;
                    message_id = m.message_id;
                    sender_uid = m.sender_uid;
                    client_msg_id = m.client_msg_id;
                  })
                  old)
            d.events)
        (ap number_of e) (new-Later owner m d v absent),
    v.ordered,
  );
}
