-- ===== src/PrivateChat/Keys.antt =====
-- The prekeys of Common/src/PrivateChatDao.cpp as a list without repetitions.
use sakura_chat_server.Prelude.{
  ℕ, ◌≡◌, refl, sym, ap, ◌∙◌, subst, ◌⊎◌, inl, inr, none-ne-some, some-injective, Text, ℤ,
  int_eq_iff, Bool, true, false, none, some, List, [], ◌∷◌, first, first-none, leb, All, Pairwise,
  Bool-cases, if◌then◌else◌, if_either, arith,
}
use sakura_chat_server.Database.{Prekey, Db, is_some}
use sakura_chat_server.Persistence.Paging.{insert_by, sort_by}
use sakura_chat_server.PrivateChat.Command.{
  is_key, insert_prekey, is_free, key_number, first_free, set_claim,
}

-- A prekey of a list.
abbrev pub Contains : Prekey → List Prekey → Type 0
Contains k [] = ⊥
Contains k (x ∷ xs) = (x ≡ k) ⊎ Contains k xs

abbrev pub Apart : Prekey → Prekey → Type 0
Apart a b = is_key a.owner_uid a.key_id b ≡ false

-- The prekeys have different numbers or owners, and this is one of them.
pub record Keys (k : Prekey) (db : Db) : Type 0 where
  pub distinct : Pairwise Apart db.prekeys
  pub kept : Contains k db.prekeys

All-contained :
    (P : Prekey → Type 0) (ks : List Prekey) (k : Prekey) → All P ks → Contains k ks → P k
All-contained P [] k ps h = absurd h
All-contained P (x ∷ xs) k (p, ps) (inl e) = subst P e p
All-contained P (x ∷ xs) k (p, ps) (inr h) = All-contained P xs k ps h

-- Two prekeys of the list with one number and owner are the same.
same_key :
    (ks : List Prekey) (a k : Prekey)
    → Pairwise Apart ks
    → Contains a ks
    → Contains k ks
    → is_key a.owner_uid a.key_id k ≡ true
    → a ≡ k
same_key [] a k ps h g w = absurd h
same_key (x ∷ xs) a k (p, ps) (inl e) (inl h) w = sym e ∙ h
same_key (x ∷ xs) a k (p, ps) (inl e) (inr h) w =
    let apart : Apart a k = subst (λ y. Apart y k) e (All-contained (Apart x) xs k p h) in
    absurd (cc)
same_key (x ∷ xs) a k (p, ps) (inr h) (inl e) w =
    let apart : Apart k a = subst (λ y. Apart y a) e (All-contained (Apart x) xs a p h) in
    absurd (ground (arith, int_eq_iff k.owner_uid a.owner_uid, int_eq_iff a.owner_uid k.owner_uid))
same_key (x ∷ xs) a k (p, ps) (inr g) (inr h) w = same_key xs a k ps g h w

pub first-Contains :
    (p : Prekey → Bool) (ks : List Prekey) (a : Prekey)
    → first p ks ≡ some a
    → Contains a ks × (p a ≡ true)
first-Contains p [] a h = absurd (none-ne-some a h)
first-Contains p (x ∷ xs) a h = go (p x) refl h (first-Contains p xs a)
  where
    go :
        (b : Bool)
        → p x ≡ b
        → (if b then some x else first p xs) ≡ some a
        → (first p xs ≡ some a → Contains a xs × (p a ≡ true))
        → ((x ≡ a) ⊎ Contains a xs) × (p a ≡ true)
    go true w e rest = let same = some-injective x a e in (inl same, ap p (sym same) ∙ w)
    go false w e rest = let (c, t) = rest e in (inr c, t)

insert_by-Contains :
    (x a : Prekey) (ks : List Prekey)
    → Contains a (insert_by key_number x ks)
    → (x ≡ a) ⊎ Contains a ks
unfolding insert_by
insert_by-Contains x a [] h = h
insert_by-Contains x a (y ∷ ys) h =
    go (leb (key_number x) (key_number y)) h (insert_by-Contains x a ys)
  where
    go :
        (b : Bool)
        → Contains a (if b then x ∷ y ∷ ys else y ∷ insert_by key_number x ys)
        → (Contains a (insert_by key_number x ys) → (x ≡ a) ⊎ Contains a ys)
        → (x ≡ a) ⊎ ((y ≡ a) ⊎ Contains a ys)
    go true g rest = g
    go false (inl e) rest = inr (inl e)
    go false (inr g) rest = elim (rest g) [ inl e ↦ inl e | inr c ↦ inr (inr c) ]

sort_by-Contains :
    (a : Prekey) (ks : List Prekey) → Contains a (sort_by key_number ks) → Contains a ks
unfolding sort_by
sort_by-Contains a [] h = h
sort_by-Contains a (x ∷ xs) h = elim (insert_by-Contains x a (sort_by key_number xs) h) [
  | inl e ↦ inl e
  | inr g ↦ inr (sort_by-Contains a xs g)
]

-- A free prekey of the owner is in the list.
pub free_in :
    (owner : ℤ) (ks : List Prekey) (a : Prekey)
    → first_free owner ks ≡ some a
    → Contains a ks × (a.owner_uid ≡ owner) × (is_some a.claim ≡ false)
unfolding first_free
free_in owner ks a h =
    let (sorted, free) = first-Contains (is_free owner) (sort_by key_number ks) a h in
    (sort_by-Contains a ks sorted, (int_eq_iff a.owner_uid owner).0 (ground arith), ground arith)

-- The prekey that is free is not the one that is claimed.
first_free-other :
    (owner : ℤ) (ks : List Prekey) (a k : Prekey)
    → Pairwise Apart ks
    → Contains k ks
    → is_some k.claim ≡ true
    → first_free owner ks ≡ some a
    → is_key owner a.key_id k ≡ false
first_free-other owner ks a k apart c claimed h =
    let (stored, own, free) = free_in owner ks a h in
    elim (Bool-cases (is_key owner a.key_id k)) [
      | inr e ↦ e
      | inl e ↦
          let same : a ≡ k =
            same_key ks a k apart stored c (subst (λ u. is_key u a.key_id k ≡ true) (sym own) e) in
          let taken : is_some a.claim ≡ true = ap (λ x. is_some x.claim) same ∙ claimed in
          absurd (cc)
    ]

-- What `UPDATE private_prekey` makes of a row.
abbrev claimed_row : ℤ → ℕ → ℤ → Text → Prekey → Prekey
claimed_row owner id actor request k =
    if is_key owner id k then record k { claim = some (actor, request) } else k

module _ (owner : ℤ) (id : ℕ) (actor : ℤ) (request : Text) where
  claimed_row-Apart :
      (a b : Prekey)
      → Apart a b
      → Apart (claimed_row owner id actor request a) (claimed_row owner id actor request b)
  claimed_row-Apart a b h =
      if_either (λ x. Apart x (claimed_row owner id actor request b)) (is_key owner id a) _ _
        (λ _.
          if_either (Apart (record a { claim = some (actor, request) })) (is_key owner id b) _ _
            (λ _. h) (λ _. h))
        (λ _. if_either (Apart a) (is_key owner id b) _ _ (λ _. h) (λ _. h))

  All-claimed :
      (a : Prekey) (ks : List Prekey)
      → All (Apart a) ks
      → All (Apart (claimed_row owner id actor request a)) (set_claim owner id actor request ks)
  unfolding set_claim
  All-claimed a [] h = tt
  All-claimed a (x ∷ xs) (h, hs) = (claimed_row-Apart a x h, All-claimed a xs hs)

  set_claim-Apart :
      (ks : List Prekey) → Pairwise Apart ks → Pairwise Apart (set_claim owner id actor request ks)
  unfolding set_claim
  set_claim-Apart [] h = tt
  set_claim-Apart (x ∷ xs) (h, hs) = (All-claimed x xs h, set_claim-Apart xs hs)

  set_claim-Contains :
      (k : Prekey) (ks : List Prekey)
      → is_key owner id k ≡ false
      → Contains k ks
      → Contains k (set_claim owner id actor request ks)
  unfolding set_claim
  set_claim-Contains k [] w h = absurd h
  set_claim-Contains k (x ∷ xs) w (inl e) = inl (
      ap (claimed_row owner id actor request) e
      ∙ ap (λ b. if b then record k { claim = some (actor, request) } else k) w)
  set_claim-Contains k (x ∷ xs) w (inr h) = inr (set_claim-Contains k xs w h)

-- The three statements that change the prekeys or another table keep a claimed one.
pub claim_free-Keys :
    (k a : Prekey) (db : Db) (peer actor : ℤ) (request : Text)
    → is_some k.claim ≡ true
    → first_free peer db.prekeys ≡ some a
    → Keys k db
    → Keys k (record db { prekeys = set_claim peer a.key_id actor request db.prekeys })
claim_free-Keys k a db peer actor request claimed free v = record {
  distinct = set_claim-Apart peer a.key_id actor request db.prekeys v.distinct;
  kept =
      set_claim-Contains peer a.key_id actor request k db.prekeys
        (first_free-other peer db.prekeys a k v.distinct v.kept claimed free) v.kept;
}

pub insert_prekey-Keys :
    (k : Prekey) (db : Db) (owner : ℤ) (id : ℕ) (body : Text)
    → first (is_key owner id) db.prekeys ≡ none
    → Keys k db
    → Keys k (insert_prekey owner id body db)
insert_prekey-Keys k db owner id body fresh v = record {
  distinct = (first-none (is_key owner id) db.prekeys fresh, v.distinct);
  kept = inr v.kept;
}
