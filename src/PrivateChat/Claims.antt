-- ===== src/PrivateChat/Claims.antt =====
-- What the commands leave of a one-time prekey that is claimed (Common/src/PrivateChatDao.cpp).
use sakura_chat_server.Prelude.{
  ℕ, ◌≡◌, refl, Text, ℤ, is_positive, Bool, true, false, not, Option, none, some, first, if_either,
}
use sakura_chat_server.Database.{Device, Prekey, Envelope, Db, is_some}
use sakura_chat_server.Database.Sql.{
  Env, Conn, Flow, other, raises, ◌>>=◌, pure, stop, stop_if, query, update, catching,
}
use sakura_chat_server.Database.Triple.{
  Safe, idle, within, statement-within, statement-ends-within, begin-idle, commit-within,
  stop_if-Safe, Safe-bind,
}
use sakura_chat_server.Database.Leases.{Kept, Over, leased-Over}
use sakura_chat_server.PrivateChat.{
  Bundle, PrivateRequest, Op, register, publish, identity, claim, send, poll, ack, valid,
}
use sakura_chat_server.PrivateChat.Command.{
  PrivateReply, private_error, PrivateParts, PrivateSql, parsed, text_or, find_device, check_device,
  identity_of, may_reach, peer_identity_of, is_key, insert_prekey, store_prekey, id_or_zero,
  publish_bundle, first_free, claim_free, claim_or_again, claim_prekey, store_envelope,
  send_envelope, next_envelope, show_envelope, peer_or_zero, run_op, counts_keys, with_count,
  private_transaction, run_private, private_chat_command,
}
use sakura_chat_server.PrivateChat.Keys.{Keys, claim_free-Keys, insert_prekey-Keys}

module _ (env : Env) (k : Prekey) (claimed : is_some k.claim ≡ true)
    (others : (n : ℕ) (e : Db) → Keys k e → Keys k (env.interfere n e)) where
  module _ (d : Db) (v : Keys k d) where
    -- A block of the transaction keeps the prekey, whatever follows it.
    abbrev Holds : {B : Type 0} → PrivateSql B → Db → Type 1
    Holds {B} m e =
        (S : B → Conn → Type 0) (n : ℕ)
        → Keys k e
        → ((b : B) (e' : Db) (n' : ℕ) → Keys k e' → S b (within d e' n'))
        → Safe (Kept (Keys k)) (Keys k) S (m (within d e n))

    then-Holds :
        {A B : Type 0} (m : PrivateSql A) (f : A → PrivateSql B) (e : Db)
        → Holds m e
        → ((a : A) (e' : Db) → Holds (f a) e')
        → Holds (m >>= f) e
    then-Holds m f e h g S n w s =
        Safe-bind (Kept (Keys k)) (Keys k) S m f (within d e n)
          (h (λ a c. Safe (Kept (Keys k)) (Keys k) S (f a c)) n w λ a e' n' w'. g a e' S n' w' s)

    pure-Holds : {B : Type 0} (b : B) (e : Db) → Holds (pure b) e
    unfolding pure
    pure-Holds b e S n w s = s b e n w

    stop-Holds : {B : Type 0} (r : PrivateReply) (e : Db) → Holds {B = B} (stop r) e
    unfolding stop
    stop-Holds r e S n w s = v

    stop_if-Holds : (b : Bool) (r : PrivateReply) (e : Db) → Holds (stop_if b r) e
    unfolding stop_if
    stop_if-Holds true r e S n w s = v
    stop_if-Holds false r e S n w s = s tt e n w

    -- A question, with what is done with its answer in the same tables.
    query-Holds :
        {A B : Type 0} (f : Db → A) (g : A → PrivateSql B) (e : Db)
        → Holds (g (f e)) e
        → Holds (query env f >>= g) e
    query-Holds f g e h S n w s =
        statement-within (Kept (Keys k)) (Keys k) S env (λ db. (f db, db)) g d e n v
          λ n'. h S n' w s

    update-Holds : (f : Db → Db) (e : Db) → (Keys k e → Keys k (f e)) → Holds (update env f) e
    update-Holds f e keeps S n w s =
        statement-ends-within (Kept (Keys k)) (Keys k) S env (λ db. (tt, f db)) d e n v
          λ n'. s tt (f e) n' (keeps w)

    parsed-Holds : (g : PrivateParts) (t : Text) (e : Db) → Holds (parsed g t) e
    unfolding parsed pure
    parsed-Holds g t e S n w s =
        if_either {A = Flow PrivateReply Text × Conn} (Safe (Kept (Keys k)) (Keys k) S)
          (g.readable t) (pure t (within d e n)) (raises other, within d e n) (λ _. s t e n w)
          (λ _. v)

    -- Two that leave the tables as they are to what follows.
    after_stop_if :
        {B : Type 0} (b : Bool) (r : PrivateReply) (f : Unit {0} → PrivateSql B) (e : Db)
        → Holds (f tt) e
        → Holds (stop_if b r >>= f) e
    after_stop_if b r f e h S n w s =
        stop_if-Safe (Kept (Keys k)) (Keys k) S b r f (within d e n) (λ _. v) (λ _. h S n w s)

    after_parsed :
        {B : Type 0} (g : PrivateParts) (t : Text) (f : Text → PrivateSql B) (e : Db)
        → Holds (f t) e
        → Holds (parsed g t >>= f) e
    unfolding parsed pure
    after_parsed g t f e h S n w s =
        Safe-bind (Kept (Keys k)) (Keys k) S (parsed g t) f (within d e n) (
          if_either {A = Flow PrivateReply Text × Conn}
            (Safe (Kept (Keys k)) (Keys k) (λ a c. Safe (Kept (Keys k)) (Keys k) S (f a c)))
            (g.readable t) (pure t (within d e n)) (raises other, within d e n) (λ _. h S n w s)
            (λ _. v))

    check_device-Holds :
        (actor : ℤ) (key : Text) (op : Op) (o : Option Device) (e : Db)
        → Holds (check_device env actor key op o) e
    unfolding check_device
    check_device-Holds actor key op (some x) e = stop_if-Holds _ _ e
    check_device-Holds actor key register none e =
        update-Holds _ e λ w. record { distinct = w.distinct; kept = w.kept }
    check_device-Holds actor key publish none e = stop-Holds _ e
    check_device-Holds actor key identity none e = stop-Holds _ e
    check_device-Holds actor key claim none e = stop-Holds _ e
    check_device-Holds actor key send none e = stop-Holds _ e
    check_device-Holds actor key poll none e = stop-Holds _ e
    check_device-Holds actor key ack none e = stop-Holds _ e

    identity_of-Holds : (o : Option Device) (e : Db) → Holds (identity_of o) e
    unfolding identity_of
    identity_of-Holds none e = stop-Holds _ e
    identity_of-Holds (some x) e = pure-Holds _ e

    peer_identity_of-Holds :
        (actor : ℤ) (o : Option ℤ) (e : Db) → Holds (peer_identity_of env actor o) e
    unfolding peer_identity_of
    peer_identity_of-Holds actor none e = pure-Holds _ e
    peer_identity_of-Holds actor (some peer) e = then-Holds _ _ e (stop_if-Holds _ _ e) λ _ e1.
        query-Holds (may_reach actor peer) _ e1 (
          then-Holds _ _ e1 (stop_if-Holds _ _ e1)
            λ _ e2. query-Holds (find_device peer) identity_of e2 (identity_of-Holds _ e2))

    store_prekey-Holds :
        (actor : ℤ) (id : ℕ) (body : Text) (o : Option Prekey) (e : Db)
        → first (is_key actor id) e.prekeys ≡ o
        → Holds (store_prekey env actor id body o) e
    unfolding store_prekey
    store_prekey-Holds actor id body (some x) e f = stop_if-Holds _ _ e
    store_prekey-Holds actor id body none e f = query-Holds _ _ e (
        after_stop_if _ _ _ e
          (update-Holds (insert_prekey actor id body) e (insert_prekey-Keys k e actor id body f)))

    publish_bundle-Holds :
        (g : PrivateParts) (actor : ℤ) (o : Option Bundle) (e : Db)
        → Holds (publish_bundle env g actor o) e
    unfolding publish_bundle
    publish_bundle-Holds g actor none e = stop-Holds _ e
    publish_bundle-Holds g actor (some b) e = query-Holds _ _ e (
        then-Holds _ _ e (store_prekey-Holds actor (id_or_zero b.id) (g.compact_bundle b) _ e refl)
          λ _ e1. pure-Holds _ e1)

    claim_free-Holds :
        (g : PrivateParts) (actor peer : ℤ) (request : Text) (o : Option Prekey) (e : Db)
        → first_free peer e.prekeys ≡ o
        → Holds (claim_free env g actor peer request o) e
    unfolding claim_free
    claim_free-Holds g actor peer request none e f = stop-Holds _ e
    claim_free-Holds g actor peer request (some a) e f = after_parsed g a.bundle _ e (
        then-Holds _ _ e (update-Holds _ e (claim_free-Keys k a e peer actor request claimed f))
          λ _ e1. pure-Holds _ e1)

    claim_or_again-Holds :
        (g : PrivateParts) (actor peer : ℤ) (request : Text) (o : Option Prekey) (e : Db)
        → Holds (claim_or_again env g actor peer request o) e
    unfolding claim_or_again
    claim_or_again-Holds g actor peer request (some x) e =
        after_parsed g x.bundle _ e (pure-Holds _ e)
    claim_or_again-Holds g actor peer request none e =
        query-Holds (λ db. first_free peer db.prekeys) _ e
          (claim_free-Holds g actor peer request _ e refl)

    store_envelope-Holds :
        (actor peer : ℤ) (insert : Db → Db) (digest : Text) (o : Option Envelope) (e : Db)
        → (Keys k e → Keys k (insert e))
        → Holds (store_envelope env actor peer insert digest o) e
    unfolding store_envelope
    store_envelope-Holds actor peer insert digest (some x) e h = stop_if-Holds _ _ e
    store_envelope-Holds actor peer insert digest none e h =
        query-Holds _ _ e (after_stop_if _ _ _ e (update-Holds insert e h))

    send_envelope-Holds :
        (g : PrivateParts) (actor peer : ℤ) (own theirs : Text) (r : PrivateRequest) (e : Db)
        → Holds (send_envelope env g actor peer own theirs r) e
    unfolding send_envelope
    send_envelope-Holds g actor peer own theirs r e = after_stop_if _ _ _ e (
        query-Holds _ _ e (
          then-Holds _ _ e
            (store_envelope-Holds actor peer _ _ _ e
              λ w. record { distinct = w.distinct; kept = w.kept })
            λ _ e1. pure-Holds _ e1))

    show_envelope-Holds :
        (g : PrivateParts) (o : Option Envelope) (e : Db) → Holds (show_envelope g o) e
    unfolding show_envelope
    show_envelope-Holds g none e = pure-Holds _ e
    show_envelope-Holds g (some x) e = after_parsed g x.sender_identity _ e (pure-Holds _ e)

    run_op-Holds :
        (g : PrivateParts) (actor : ℤ) (own theirs : Text) (r : PrivateRequest) (op : Op) (e : Db)
        → Holds (run_op env g actor own theirs r op) e
    unfolding run_op claim_prekey
    run_op-Holds g actor own theirs r register e = pure-Holds _ e
    run_op-Holds g actor own theirs r publish e = publish_bundle-Holds g actor r.bundle e
    run_op-Holds g actor own theirs r identity e = after_parsed g theirs _ e (pure-Holds _ e)
    run_op-Holds g actor own theirs r claim e =
        query-Holds _ _ e
          (claim_or_again-Holds g actor (peer_or_zero r.peer) (text_or r.request_id) _ e)
    run_op-Holds g actor own theirs r send e =
        send_envelope-Holds g actor (peer_or_zero r.peer) own theirs r e
    run_op-Holds g actor own theirs r poll e =
        query-Holds (next_envelope actor own) (show_envelope g) e (show_envelope-Holds g _ e)
    run_op-Holds g actor own theirs r ack e =
        then-Holds _ _ e (update-Holds _ e λ w. record { distinct = w.distinct; kept = w.kept })
          λ _ e1. pure-Holds _ e1

    with_count-Holds :
        (actor : ℤ) (r : PrivateReply) (b : Bool) (e : Db) → Holds (with_count env actor r b) e
    unfolding with_count
    with_count-Holds actor r false e = pure-Holds _ e
    with_count-Holds actor r true e = query-Holds _ _ e (pure-Holds _ e)

  private_transaction-Keys :
      (g : PrivateParts) (actor : ℤ) (r : PrivateRequest) (op : Op) (d : Db) (n : ℕ)
      → Keys k d
      → Safe
          (Kept (Keys k))
          (Keys k)
          (Kept (Keys k))
          (private_transaction env g actor r op (idle d n))
  unfolding private_transaction pure
  private_transaction-Keys g actor r op d n v =
      let d' = env.interfere n d in
      let v' = others n d v in
      begin-idle (Kept (Keys k)) (Keys k) (Kept (Keys k)) env _ d n v' λ n1.
        statement-within (Kept (Keys k)) (Keys k) (Kept (Keys k)) env _ _ d' d' n1 v' λ n2.
          stop_if-Safe (Kept (Keys k)) (Keys k) (Kept (Keys k)) _ _ _ _ (λ _. v')
            λ _. statement-within (Kept (Keys k)) (Keys k) (Kept (Keys k)) env _ _ d' d' n2 v' λ n3.
              Safe-bind (Kept (Keys k)) (Keys k) (Kept (Keys k)) _ _ _ (
                check_device-Holds d' v' actor (g.compact r.identity) op _ d' _ n3 v' λ _ e1 n4 w1.
                  Safe-bind (Kept (Keys k)) (Keys k) (Kept (Keys k)) _ _ _ (
                    peer_identity_of-Holds d' v' actor r.peer e1 _ n4 w1 λ theirs e2 n5 w2.
                      Safe-bind (Kept (Keys k)) (Keys k) (Kept (Keys k)) _ _ _ (
                        run_op-Holds d' v' g actor (g.compact r.identity) theirs r op e2 _ n5 w2
                          λ result e3 n6 w3.
                            Safe-bind (Kept (Keys k)) (Keys k) (Kept (Keys k)) _ _ _ (
                              with_count-Holds d' v' actor result (counts_keys op) e3 _ n6 w3
                                λ counted e4 n7 w4.
                                  commit-within (Kept (Keys k)) (Keys k) (Kept (Keys k)) env _ d' e4
                                    n7 v' w4 λ n8. w4))))

  run_private-Over :
      (g : PrivateParts) (actor : ℤ) (r : PrivateRequest) (o : Option Op) (c : Conn)
      → Over (Keys k) c
      → Over (Keys k) (run_private env g actor r o c).1
  unfolding run_private catching
  run_private-Over g actor r none c v = v
  run_private-Over g actor r (some op) c v =
      leased-Over (Keys k) env (private_transaction env g actor r op) c
        (private_transaction-Keys g actor r op) v

  -- Of a prekey that is claimed: whatever request comes from whichever user, whichever call fails, and
  -- whatever others commit that keeps it so, the prekey stays with its claim and its bundle, and the
  -- numbers of the prekeys stay different for each owner. So it is not given to a second claim.
  pub private_chat_command-Over :
      (g : PrivateParts) (actor : ℤ) (r : PrivateRequest) (c : Conn)
      → Over (Keys k) c
      → Over (Keys k) (private_chat_command env g actor r c).1
  unfolding private_chat_command
  private_chat_command-Over g actor r c v =
      if_either {A = PrivateReply × Conn} (λ out. Over (Keys k) out.1) (not (is_positive actor))
        (private_error 1001, c) (run_private env g actor r (valid r) c) (λ _. v)
        (λ _. run_private-Over g actor r (valid r) c v)
