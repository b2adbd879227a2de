-- ===== src/Persistence/Retention/Scan.antt =====
-- Which messages the scan of `MysqlDao::ExpireMessages` (Common/src/ChatPersistence.cpp) finds.
use sakura_chat_server.Prelude.{
  ℕ, zero, suc, ◌≤◌, ◌<◌, ◌≡◌, refl, ◌⊎◌, inl, inr, ℤ, Option, none, some, List, [], ◌∷◌, take,
  length, leb, All, All-imp, if_either, arith,
}
use sakura_chat_server.Database.{Message, Expiry, Db}
use sakura_chat_server.Persistence.Deletion.{find_by_id}
use sakura_chat_server.Persistence.Retention.{
  before, insert_sorted, sorted, senders, due_only, due_messages,
}

-- A message whose time is up, by the rows of `message_expiry`.
abbrev pub DueIn : ℕ → List Expiry → ℕ → Type 0
DueIn now [] id = ⊥
DueIn now (e ∷ es) id = ((e.message_id ≡ id) × (e.expires_at ≤ now)) ⊎ DueIn now es id

module _ (Q : Expiry → Type 0) where
  insert_sorted-All : (e : Expiry) (es : List Expiry) → Q e → All Q es → All Q (insert_sorted e es)
  unfolding insert_sorted
  insert_sorted-All e [] q h = (q, tt)
  insert_sorted-All e (x ∷ xs) q (p, h) =
      if_either {A = List Expiry} (All Q) (before e x) (e ∷ x ∷ xs) (x ∷ insert_sorted e xs)
        (λ _. (q, (p, h))) (λ _. (p, insert_sorted-All e xs q h))

  sorted-All : (es : List Expiry) → All Q es → All Q (sorted es)
  unfolding sorted
  sorted-All [] h = tt
  sorted-All (e ∷ es) (q, h) = insert_sorted-All e (sorted es) q (sorted-All es h)

  -- And what holds of a sorted list held before.
  insert_sorted-All_back :
      (e : Expiry) (es : List Expiry) → All Q (insert_sorted e es) → Q e × All Q es
  unfolding insert_sorted
  insert_sorted-All_back e [] h = h
  insert_sorted-All_back e (x ∷ xs) h =
      if_either {A = List Expiry} (λ l. All Q l → Q e × All Q (x ∷ xs)) (before e x) (e ∷ x ∷ xs)
        (x ∷ insert_sorted e xs) (λ _ h. h)
        (λ _ l. let r = insert_sorted-All_back e xs l.1 in (r.0, (l.0, r.1))) h

  sorted-All_back : (es : List Expiry) → All Q (sorted es) → All Q es
  unfolding sorted
  sorted-All_back [] h = tt
  sorted-All_back (e ∷ es) h =
      let r = insert_sorted-All_back e (sorted es) h in (r.0, sorted-All_back es r.1)

  due_only-All_back :
      (now : ℕ) (es : List Expiry)
      → All Q (due_only now es)
      → All (λ e. e.expires_at ≤ now → Q e) es
  unfolding due_only
  due_only-All_back now [] h = tt
  due_only-All_back now (e ∷ es) h =
      if_either {A = List Expiry} (λ l. All Q l → All (λ x. x.expires_at ≤ now → Q x) (e ∷ es))
        (leb e.expires_at now) (e ∷ due_only now es) (due_only now es)
        (λ _ l. ((λ _. l.0), due_only-All_back now es l.1))
        (λ late l. ((λ w. absurd (ground (arith, late, w))), due_only-All_back now es l)) h

due_only-DueIn :
    (now : ℕ) (es : List Expiry) → All (λ e. DueIn now es e.message_id) (due_only now es)
unfolding due_only
due_only-DueIn now [] = tt
due_only-DueIn now (e ∷ es) =
    let rest =
      All-imp (λ x. DueIn now es x.message_id) (λ x. DueIn now (e ∷ es) x.message_id) (λ x h. inr h)
        (due_only now es) (due_only-DueIn now es) in
    if_either {A = List Expiry} (All (λ x. DueIn now (e ∷ es) x.message_id)) (leb e.expires_at now)
      (e ∷ due_only now es) (due_only now es) (λ w. (inl (refl, ground (arith, w)), rest))
      (λ _. rest)

module _ (P : ℕ → Type 0) (ms : List Message) where
  senders-All : (es : List Expiry) → All (λ e. P e.message_id) es → All (λ p. P p.1) (senders ms es)
  unfolding senders
  senders-All [] h = tt
  senders-All (e ∷ es) (q, h) = go (find_by_id e.message_id ms) (senders-All es h)
    where
      go :
          (o : Option Message)
          → All (λ p. P p.1) (senders ms es)
          → let l : List (ℤ × ℕ) = elim o [
            | none ↦ senders ms es
            | some m ↦ (m.sender_uid, e.message_id) ∷ senders ms es
          ] in
            All (λ p. P p.1) l
      go none l = l
      go (some m) l = (q, l)

  senders-All_back :
      (absent : (id : ℕ) → find_by_id id ms ≡ none → P id) (es : List Expiry)
      → All (λ p. P p.1) (senders ms es)
      → All (λ e. P e.message_id) es
  unfolding senders
  senders-All_back absent [] h = tt
  senders-All_back absent (e ∷ es) h =
      go (senders-All_back absent es) (find_by_id e.message_id ms) refl h
    where
      go :
          (All (λ p. P p.1) (senders ms es) → All (λ x. P x.message_id) es)
          → (o : Option Message) → find_by_id e.message_id ms ≡ o
          → let l : List (ℤ × ℕ) = elim o [
            | none ↦ senders ms es
            | some m ↦ (m.sender_uid, e.message_id) ∷ senders ms es
          ] in
            All (λ p. P p.1) l → P e.message_id × All (λ x. P x.message_id) es
      go rest none w l = (absent e.message_id w, rest l)
      go rest (some m) w l = (l.0, rest l.1)

take-All : {A : Type 0} (P : A → Type 0) (n : ℕ) (xs : List A) → All P xs → All P (take n xs)
take-All P zero xs h = tt
take-All P (suc n) [] h = tt
take-All P (suc n) (x ∷ xs) (p, h) = (p, take-All P n xs h)

take-All_back :
    {A : Type 0} (P : A → Type 0) (n : ℕ) (xs : List A)
    → length (take n xs) < n
    → All P (take n xs)
    → All P xs
take-All_back P zero xs w h = absurd (omega (arith, w))
take-All_back P (suc n) [] w h = tt
take-All_back P (suc n) (x ∷ xs) w (p, h) = (p, take-All_back P n xs (omega (arith, w)) h)

-- What the scan finds is due.
pub due_messages-DueIn : (d : Db) → All (λ p. DueIn d.now d.expiry p.1) (due_messages d)
unfolding due_messages
due_messages-DueIn d =
    let due = due_only d.now d.expiry in
    take-All (λ p. DueIn d.now d.expiry p.1) 20 (senders d.messages (sorted due))
      (senders-All (DueIn d.now d.expiry) d.messages (sorted due)
        (sorted-All (λ e. DueIn d.now d.expiry e.message_id) due (due_only-DueIn d.now d.expiry)))

-- And if it finds fewer than twenty, they are all that are due, as far as their messages are there.
pub due_messages_complete :
    (P : ℕ → Type 0) (d : Db)
    → ((id : ℕ) → find_by_id id d.messages ≡ none → P id)
    → length (due_messages d) < 20
    → All (λ p. P p.1) (due_messages d)
    → All (λ e. e.expires_at ≤ d.now → P e.message_id) d.expiry
unfolding due_messages
due_messages_complete P d absent few h =
    let due = due_only d.now d.expiry in
    due_only-All_back (λ e. P e.message_id) d.now d.expiry
      (sorted-All_back (λ e. P e.message_id) due
        (senders-All_back P d.messages absent (sorted due)
          (take-All_back (λ p. P p.1) 20 (senders d.messages (sorted due)) few h)))
