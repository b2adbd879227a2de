-- ===== src/Persistence/Receipts/Monotone.antt =====
-- The receipts before and after `RecordReceipt`.
use sakura_chat_server.Prelude.{
  ℕ, ◌+◌, ◌≤◌, ◌≡◌, refl, ℤ, Bool, true, false, Option, none, some, List, [], ◌∷◌, first,
  if◌then◌else◌, arith,
}
use sakura_chat_server.Database.{Receipt, Db}
use sakura_chat_server.Database.Sql.{Env, Conn, pure, catching}
use sakura_chat_server.Database.Triple.{
  Safe, idle, statement-within, begin-idle, commit-within, stop_if-Safe,
}
use sakura_chat_server.Database.Leases.{Kept, Over, leased-Over}
use sakura_chat_server.Persistence.Privacy.{read_receipts}
use sakura_chat_server.Persistence.Privacy.Reads.{privacy_allows-Over}
use sakura_chat_server.Persistence.Receipts.{
  is_receipt, upsert_receipt, raise_receipt, write_receipt, is_suppressed, record_receipt,
}

-- How far the receipts say that a user is with a message: 0 for no receipt, 1 for delivered, 2 for
-- read.
abbrev pub level_in : Option Receipt → ℕ
level_in none = 0
level_in (some r) = r.status + 1

abbrev pub level : ℕ → ℤ → List Receipt → ℕ
level id user rs = level_in (first (is_receipt id user) rs)

-- An update lowers no one.
upsert_receipt-level :
    (id : ℕ) (user : ℤ) (is_read : Bool) (now i : ℕ) (u : ℤ) (rs : List Receipt)
    → level i u rs ≤ level i u (upsert_receipt id user is_read now rs)
unfolding upsert_receipt raise_receipt
upsert_receipt-level id user is_read now i u [] = omega arith
upsert_receipt-level id user is_read now i u (r ∷ rs) =
    updated (is_receipt id user r) (upsert_receipt-level id user is_read now i u rs)
  where
    raised :
        (b : Bool) (x : Option Receipt)
        → level_in (if b then some r else x)
          ≤ level_in (if b then some (raise_receipt is_read now r) else x)
    raised true x = omega arith
    raised false x = omega arith

    kept :
        (b : Bool) (x y : Option Receipt)
        → level_in x ≤ level_in y
        → level_in (if b then some r else x) ≤ level_in (if b then some r else y)
    kept true x y h = omega arith
    kept false x y h = h

    updated :
        (a : Bool)
        → level i u rs ≤ level i u (upsert_receipt id user is_read now rs)
        → level i u (r ∷ rs)
          ≤ level i u (
              if a
              then raise_receipt is_read now r ∷ rs
              else r ∷ upsert_receipt id user is_read now rs)
    updated true h = raised (is_receipt i u r) _
    updated false h = kept (is_receipt i u r) _ _ h

-- `e` has no receipt behind those of `d`.
abbrev pub Ahead : Db → Db → Type 0
Ahead d e = (i : ℕ) (u : ℤ) → level i u d.receipts ≤ level i u e.receipts

module _ (env : Env) (actor : ℤ) (P : Db → Type 0)
    (others : (n : ℕ) (d : Db) → P d → P (env.interfere n d))
    (raised : (id : ℕ) (is_read : Bool) (d : Db)
      → P d
      → P (record d { receipts = upsert_receipt id actor is_read d.now d.receipts })) where
  write_receipt-Kept :
      (id : ℕ) (is_read suppressed : Bool) (d : Db) (n : ℕ)
      → P d
      → Safe (Kept P) P (Kept P) (write_receipt env actor id is_read suppressed (idle d n))
  unfolding write_receipt pure
  write_receipt-Kept id is_read suppressed d n p =
      let p' = others n d p in
      let d' = env.interfere n d in
      begin-idle (Kept P) P (Kept P) env _ d n p' λ n1.
        statement-within (Kept P) P (Kept P) env _ _ d' d' n1 p' λ n2.
          stop_if-Safe (Kept P) P (Kept P) _ _ _ _ (λ _. p')
            λ _. statement-within (Kept P) P (Kept P) env _ _ d' d' n2 p' λ n3.
              statement-within (Kept P) P (Kept P) env _ _ d' _ n3 p' λ n4.
                commit-within (Kept P) P (Kept P) env _ d' _ n4 p' (raised id is_read d' p')
                  λ n5. raised id is_read d' p'

  is_suppressed-Over :
      (is_read : Bool) (c : Conn) → Over P c → Over P (is_suppressed env actor is_read c).1
  unfolding is_suppressed
  is_suppressed-Over false c v = v
  is_suppressed-Over true c v = privacy_allows-Over env actor actor read_receipts P others c v

  record_receipt-Over :
      (id : ℕ) (is_read : Bool) (c : Conn)
      → Over P c
      → Over P (record_receipt env actor id is_read c).1
  unfolding record_receipt catching
  record_receipt-Over id is_read c v =
      leased-Over P env (write_receipt env actor id _ _) _ (write_receipt-Kept id _ _)
        (is_suppressed-Over is_read c v)

-- While no one else sets a receipt back, no call of `RecordReceipt` does, whichever of its calls fail
-- and whatever it answers: a message that was read stays read, one that was delivered is at least
-- delivered, for every user. No transaction is left open.
pub record_receipt-Ahead :
    (env : Env) (actor : ℤ) (id : ℕ) (is_read : Bool) (d : Db) (n : ℕ)
    → ((i : ℕ) (e : Db) → Ahead e (env.interfere i e))
    → let c = (record_receipt env actor id is_read (idle d n)).1 in (c.saved ≡ none) × Ahead d c.db
record_receipt-Ahead env actor id is_read d n others =
    let over =
      record_receipt-Over env actor (Ahead d) (λ k e p i u. omega (arith, p i u, others k e i u))
        (λ j r e p i u. omega (arith, p i u, upsert_receipt-level j actor r e.now i u e.receipts))
        id is_read (idle d n) (record { none_open = refl; holds = λ i u. omega arith }) in
    (over.none_open, over.holds)
