-- ===== src/Persistence/Store/Once.antt =====
-- What the rounds of `StoreTextMessage` store, whichever of them fail.
use sakura_chat_server.Prelude.{
  ℕ, ◌+◌, ◌*◌, ◌≡◌, ◌⊎◌, inl, inr, refl, sym, ap, ◌∙◌, subst, Text, ℤ, int_eq, int_eq_self, true,
  ◌&&◌, none, some, none-ne-some, List, ◌∷◌, first, ltb, if◌then◌else◌,
}
use sakura_chat_server.Database.{Message, Db}
use sakura_chat_server.Database.Sql.{Env}
use sakura_chat_server.Database.Triple.{idle}
use sakura_chat_server.Persistence.{find_message}
use sakura_chat_server.Persistence.Store.{insert_expiry, insert_message, store_text_message}
use sakura_chat_server.Persistence.Store.Step.{appended, Stored}
use sakura_chat_server.Persistence.Store.Committed.{store_text_message-Over}

insert_expiry-messages :
    (i : ℕ) (sender : ℤ) (d : Db) → (insert_expiry i sender d).messages ≡ d.messages
unfolding insert_expiry
insert_expiry-messages i sender d =
    elim (first (λ r. int_eq r.uid sender && ltb 0 r.seconds) d.retention)
      as (λ o.
        let e : Db = elim o [
          | none ↦ d
          | some r ↦ record d {
            expiry = record { message_id = i; expires_at = d.now + r.seconds * 1000 } ∷ d.expiry;
          }
        ] in
        e.messages ≡ d.messages) [ none ↦ refl | some r ↦ refl ]

found_first :
    (env : Env) (sender : ℤ) (id : Text) (m : Message) (ms : List Message)
    → (int_eq m.sender_uid sender && env.same m.client_msg_id id) ≡ true
    → find_message env sender id (m ∷ ms) ≡ some m
unfolding find_message
found_first env sender id m ms h =
    ap
      (λ b.
        if b
        then some m
        else first (λ x. int_eq x.sender_uid sender && env.same x.client_msg_id id) ms)
      h

-- A message that was stored is found by its id.
appended-found :
    (env : Env) (same_refl : (t : Text) → env.same t t ≡ true) (thread seq : ℕ)
    (sender receiver : ℤ) (id text : Text) (d : Db)
    → (m : Message) × (find_message env sender id
          (appended thread seq sender receiver id text d).messages
        ≡ some m)
unfolding insert_message
appended-found env same_refl thread seq sender receiver id text d = (
  _,
  ap (find_message env sender id) (insert_expiry-messages d.next_message sender _)
      ∙ found_first env sender id _ d.messages
          (ap (λ b. b && env.same id id) (int_eq_self sender) ∙ same_refl id),
)

-- When no other connection commits anything, and the collation takes an id for itself: whichever
-- statements, commits and rollbacks fail in whichever of the three rounds, the tables are as they
-- were, or with the message stored exactly once.
pub store_text_message-once :
    (env : Env) (sender receiver : ℤ) (id text : Text) (d : Db) (n : ℕ)
    → ((i : ℕ) (e : Db) → env.interfere i e ≡ e)
    → ((t : Text) → env.same t t ≡ true)
    → let e = (store_text_message env sender receiver id text (idle d n)).1.db in
      (e ≡ d) ⊎ Stored env sender receiver id text d e
store_text_message-once env sender receiver id text d n still same_refl =
    (store_text_message-Over env sender receiver id text P (λ i e p. subst P (sym (still i e)) p)
      stored (idle d n) (record { none_open = refl; holds = inl refl })).holds
  where
    P : Db → Type 0
    P e = (e ≡ d) ⊎ Stored env sender receiver id text d e

    stored : (e f : Db) → Stored env sender receiver id text e f → P e → P f
    stored e f w (inl same_tables) =
        inr (subst (λ x. Stored env sender receiver id text x f) same_tables w)
    stored e f w (inr before) =
        let (m, found) = appended-found env same_refl _ _ sender receiver id text _ in
        absurd (
          none-ne-some m
            (sym w.fresh ∙ ap (λ x. find_message env sender id x.messages) before.result ∙ found))
