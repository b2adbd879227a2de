-- ===== src/Accounts/Friends/Consent.antt =====
-- Whom the procedure `resolve_friend_apply` (database/schema.sql) makes friends.
use sakura_chat_server.Prelude.{
  ℕ, ◌≡◌, refl, sym, ◌∙◌, ℤ, pos, negsuc, int_eq, int_eq_iff, Bool, inl, inr, ◌⊎◌, true, false, not,
  ◌&&◌, ◌||◌, Option, none, some, and_true, ==_iff, ◌==◌, if◌then◌else◌,
}
use sakura_chat_server.Database.{FriendApply, Db}
use sakura_chat_server.Accounts.Procedures.{
  find_apply, settle_apply, resolve_found, resolve_friend_apply,
}
use sakura_chat_server.Accounts.Friends.Mutual.{befriends, befriends-agreed}

-- The two users of a request, in one order or the other.
abbrev pub Between : FriendApply → ℤ → ℤ → Type 0
Between a x y = ((a.from_uid ≡ x) × (a.to_uid ≡ y)) ⊎ ((a.to_uid ≡ x) × (a.from_uid ≡ y))

-- The request with the id waits for the answer of the actor, who agrees.
pub record Consent (db : Db) (id : ℕ) (actor : ℤ) (agree : Bool) (x y : ℤ) : Type 0 where
  pub apply : FriendApply
  pub found : find_apply id db.applies ≡ some apply
  pub addressee : apply.to_uid ≡ actor
  pub pending : apply.status ≡ 0
  pub agreed : agree ≡ true
  pub users : Between apply x y

or_cases : (a b : Bool) → (a || b) ≡ true → (a ≡ true) ⊎ (b ≡ true)
or_cases true b h = inl refl
or_cases false b h = inr h

pair_eq : (s t x y : ℤ) → (int_eq s x && int_eq t y) ≡ true → (s ≡ x) × (t ≡ y)
pair_eq s t x y h =
    let p = and_true (int_eq s x) (int_eq t y) h in ((int_eq_iff s x).0 p.0, (int_eq_iff t y).0 p.1)

settle_apply-Between :
    (a : FriendApply) (agree : Bool) (db : Db) (x y : ℤ)
    → befriends x y (settle_apply a agree db).friends ≡ true
    → (befriends x y db.friends ≡ true) ⊎ ((agree ≡ true) × Between a x y)
unfolding settle_apply
settle_apply-Between a false db x y h = inl h
settle_apply-Between a true db x y h =
    let sum = sym (befriends-agreed a x y db.friends) ∙ h in
    elim (or_cases _ _ sum) [
      | inr back ↦ inr (refl, inr (pair_eq a.to_uid a.from_uid x y back))
      | inl rest ↦ elim (or_cases _ _ rest) [
        | inl old ↦ inl old
        | inr forth ↦ inr (refl, inl (pair_eq a.from_uid a.to_uid x y forth))
      ]
    ]

-- Two users who are friends after `resolve_friend_apply`, whatever error it meets, were friends before,
-- or they are those of a pending request to the user who resolves it, and that user agrees.
pub resolve_friend_apply-Consent :
    (trouble : Option ℕ) (id : ℕ) (actor : ℤ) (agree : Bool) (db : Db) (x y : ℤ)
    → befriends x y (resolve_friend_apply trouble id actor agree db).1.friends ≡ true
    → (befriends x y db.friends ≡ true) ⊎ Consent db id actor agree x y
unfolding resolve_friend_apply resolve_found
resolve_friend_apply-Consent trouble id actor agree db x y = go (find_apply id db.applies) refl
  where
    tested :
        (a : FriendApply) (p q : Bool) (o : Option ℕ)
        → find_apply id db.applies ≡ some a
        → int_eq a.to_uid actor ≡ p
        → (a.status == 0) ≡ q
        → (let out : ℤ × Db = if not p || not q then (negsuc 0, db) else elim o [
          | none ↦ (pos 0, settle_apply a agree db)
          | some code ↦ (negsuc 0, db)
        ] in
            befriends x y out.1.friends ≡ true)
        → (befriends x y db.friends ≡ true) ⊎ Consent db id actor agree x y
    tested a false q o f w v h = inl h
    tested a true false o f w v h = inl h
    tested a true true (some code) f w v h = inl h
    tested a true true none f w v h = elim (settle_apply-Between a agree db x y h) [
      | inl old ↦ inl old
      | inr new ↦ inr (record {
        apply = a;
        found = f;
        addressee = (int_eq_iff a.to_uid actor).0 w;
        pending = (==_iff a.status 0).0 v;
        agreed = new.0;
        users = new.1;
      })
    ]

    go :
        (row : Option FriendApply)
        → find_apply id db.applies ≡ row
        → befriends x y (resolve_found trouble row actor agree db).1.friends ≡ true
        → (befriends x y db.friends ≡ true) ⊎ Consent db id actor agree x y
    go none f h = inl h
    go (some a) f h = tested a (int_eq a.to_uid actor) (a.status == 0) trouble f refl refl h
