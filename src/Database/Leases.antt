-- ===== src/Database/Leases.antt =====
-- What holds after a block under a lease: no transaction is open, and the tables satisfy what every
-- end of the block keeps.
use sakura_chat_server.Prelude.{
  ℕ, ◌+◌, ◌≡◌, refl, sym, subst, Bool, true, false, Option, none, some,
}
use sakura_chat_server.Database.{Db}
use sakura_chat_server.Database.Sql.{
  Env, Conn, Flow, value, returns, raises, other, Sql, undo, with_lease,
}
use sakura_chat_server.Database.Triple.{Safe, committed, idle}

module _ (P : Db → Type 0) where
  -- What every end of a block keeps, whatever its value.
  abbrev pub Kept : {B : Type 0} → B → Conn → Type 0
  Kept b c = P (committed c)

  pub record Over (c : Conn) : Type 0 where
    pub none_open : c.saved ≡ none
    pub holds : P c.db

  undo-Over :
      (d : Db) (o : Option Db) (n : ℕ)
      → P (committed (record { db = d; saved = o; tick = n }))
      → Over (undo (record { db = d; saved = o; tick = n }))
  undo-Over d none n p = record { none_open = refl; holds = p }
  undo-Over d (some before) n p = record { none_open = refl; holds = p }

  ended-Kept : {R A : Type 0} (out : Flow R A × Conn) → Safe Kept P Kept out → P (committed out.1)
  ended-Kept (value r, c) p = p
  ended-Kept (returns r, c) p = p
  ended-Kept (raises e, c) p = p

  pub leased-Over :
      {R A : Type 0} (env : Env) (m : Sql R A) (c : Conn)
      → ((d : Db) (n : ℕ) → P d → Safe Kept P Kept (m (idle d n)))
      → Over c
      → Over (with_lease env m c).1
  unfolding with_lease
  leased-Over {R} {A} env m c kept v =
      subst (λ o. Over (with_lease env m (record c { saved = o })).1) (sym v.none_open)
        (go c.db c.tick (env.leases c.tick) v.holds)
    where
      go :
          (d : Db) (n : ℕ) (b : Bool)
          → P d
          → let out : Flow R A × Conn = elim b [
            | false ↦ (raises other, idle d (n + 1))
            | true ↦ let (r, c') = m (idle d (n + 1)) in (r, undo c')
          ] in
            Over out.1
      go d n false p = record { none_open = refl; holds = p }
      go d n true p =
          let out = m (idle d (n + 1)) in
          undo-Over out.1.db out.1.saved out.1.tick (ended-Kept out (kept d (n + 1) p))
