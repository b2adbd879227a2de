-- ===== src/Persistence/Privacy/Sane.antt =====
-- What `PrivacyCommand` keeps of the tables of policies, retentions and blocks.
use sakura_chat_server.Prelude.{
  ℕ, ◌≤◌, ◌≡◌, refl, ℤ, pos, negsuc, Bool, true, false, not, ◌||◌, Option, none, some, List, [],
  ◌∷◌, keep, leb, leb→le, int_eq, is_positive, All, if◌then◌else◌, Text,
}
use sakura_chat_server.Database.{Privacy, Block, Retention, Db}
use sakura_chat_server.Database.Sql.{
  Env, Conn, Sql, ◌>>=◌, stop, stop_if, pure, with_lease, catching,
}
use sakura_chat_server.Database.Triple.{
  Safe, idle, statement-idle, statement-ends, stop_if-Safe, Safe-bind,
}
use sakura_chat_server.Database.Leases.{Kept, Over, leased-Over}
use sakura_chat_server.Persistence.{chat_data_invalid, chat_database_failed}
use sakura_chat_server.Persistence.Privacy.Command.{
  PrivacyRequest, PrivacyReply, refused, is_retention, retention_value, policy_value, flag_value,
  other_user, put_retention, put_privacy, delete_block, put_block, Command, set_retention,
  set_policies, block, unblock, get_settings, unknown_action, command_of, apply_command, after_of,
  read_settings, run_command, command_on, privacy_command,
}

abbrev pub KnownPolicies : Privacy → Type 0
KnownPolicies p = (p.search_policy ≤ 2) × (p.request_policy ≤ 2) × (p.profile_policy ≤ 2)

abbrev pub KnownRetention : Retention → Type 0
KnownRetention r = is_retention r.seconds ≡ true

-- A block of another user.
abbrev pub OfAnother : Block → Type 0
OfAnother b = (is_positive b.blocked_uid ≡ true) × (int_eq b.blocked_uid b.owner_uid ≡ false)

-- Policies are 0, 1 or 2, retentions are those that a user may choose, and nobody is blocked by
-- themselves.
pub record Sane (d : Db) : Type 0 where
  pub policies : All KnownPolicies d.privacy
  pub retentions : All KnownRetention d.retention
  pub blocks : All OfAnother d.blocks

All-keep : {A : Type 0} (P : A → Type 0) (p : A → Bool) (xs : List A) → All P xs → All P (keep p xs)
All-keep P p [] h = tt
All-keep P p (x ∷ xs) (h, hs) = go (p x) (All-keep P p xs hs)
  where
    go : (b : Bool) → All P (keep p xs) → All P (if b then x ∷ keep p xs else keep p xs)
    go true rest = (h, rest)
    go false rest = rest

put_retention-Sane :
    (actor : ℤ) (s : ℕ) (d : Db) → is_retention s ≡ true → Sane d → Sane (put_retention actor s d)
unfolding put_retention
put_retention-Sane actor s d e v = record {
  policies = v.policies;
  retentions = (e, All-keep KnownRetention _ d.retention v.retentions);
  blocks = v.blocks;
}

put_privacy-Sane :
    (actor : ℤ) (a b c : ℕ) (r : Bool) (d : Db)
    → leb a 2 ≡ true
    → leb b 2 ≡ true
    → leb c 2 ≡ true
    → Sane d
    → Sane (put_privacy actor a b c r d)
unfolding put_privacy
put_privacy-Sane actor a b c r d p q s v = record {
  policies =
      ((leb→le a 2 p, leb→le b 2 q, leb→le c 2 s), All-keep KnownPolicies _ d.privacy v.policies);
  retentions = v.retentions;
  blocks = v.blocks;
}

put_block-Sane :
    (actor u : ℤ) (d : Db)
    → is_positive u ≡ true
    → int_eq u actor ≡ false
    → Sane d
    → Sane (put_block actor u d)
unfolding put_block
put_block-Sane actor u d p q v = record {
  policies = v.policies;
  retentions = v.retentions;
  blocks = ((p, q), All-keep OfAnother _ d.blocks v.blocks);
}

delete_block-Sane : (actor u : ℤ) (d : Db) → Sane d → Sane (delete_block actor u d)
unfolding delete_block
delete_block-Sane actor u d v = record {
  policies = v.policies;
  retentions = v.retentions;
  blocks = All-keep OfAnother _ d.blocks v.blocks;
}

-- The values of a request: an early return, or a value that passed the test.
module _ {B : Type 0} (S : B → Conn → Type 0) (d : Db) (n : ℕ) (v : Sane d) where
  retention_value-Safe :
      (s : Option ℤ) (f : ℕ → Sql PrivacyReply B)
      → ((m : ℕ) → is_retention m ≡ true → Safe (Kept Sane) Sane S (f m (idle d n)))
      → Safe (Kept Sane) Sane S ((retention_value s >>= f) (idle d n))
  unfolding retention_value ◌>>=◌ stop stop_if pure
  retention_value-Safe none f h = v
  retention_value-Safe (some (negsuc m)) f h = v
  retention_value-Safe (some (pos m)) f h = go (is_retention m) (h m)
    where
      go :
          (b : Bool)
          → (b ≡ true → Safe (Kept Sane) Sane S (f m (idle d n)))
          → Safe
              (Kept Sane)
              Sane
              S
              (((stop_if (not b) (refused chat_data_invalid) >>= λ _. pure m) >>= f) (idle d n))
      go true k = k refl
      go false k = v

  policy_value-Safe :
      (s : Option ℤ) (f : ℕ → Sql PrivacyReply B)
      → ((m : ℕ) → leb m 2 ≡ true → Safe (Kept Sane) Sane S (f m (idle d n)))
      → Safe (Kept Sane) Sane S ((policy_value s >>= f) (idle d n))
  unfolding policy_value ◌>>=◌ stop stop_if pure
  policy_value-Safe none f h = v
  policy_value-Safe (some (negsuc m)) f h = v
  policy_value-Safe (some (pos m)) f h = go (leb m 2) (h m)
    where
      go :
          (b : Bool)
          → (b ≡ true → Safe (Kept Sane) Sane S (f m (idle d n)))
          → Safe
              (Kept Sane)
              Sane
              S
              (((stop_if (not b) (refused chat_data_invalid) >>= λ _. pure m) >>= f) (idle d n))
      go true k = k refl
      go false k = v

  flag_value-Safe :
      (b : Option Bool) (f : Bool → Sql PrivacyReply B)
      → ((x : Bool) → Safe (Kept Sane) Sane S (f x (idle d n)))
      → Safe (Kept Sane) Sane S ((flag_value b >>= f) (idle d n))
  unfolding flag_value ◌>>=◌ stop pure
  flag_value-Safe none f h = v
  flag_value-Safe (some b) f h = h b

  other_user-Safe :
      (actor : ℤ) (u : Option ℤ) (f : ℤ → Sql PrivacyReply B)
      → ((w : ℤ)
          → is_positive w ≡ true
          → int_eq w actor ≡ false
          → Safe (Kept Sane) Sane S (f w (idle d n)))
      → Safe (Kept Sane) Sane S ((other_user actor u >>= f) (idle d n))
  unfolding other_user ◌>>=◌ stop stop_if pure
  other_user-Safe actor none f h = v
  other_user-Safe actor (some u) f h = go (is_positive u) (int_eq u actor) (h u)
    where
      go :
          (p e : Bool)
          → (p ≡ true → e ≡ false → Safe (Kept Sane) Sane S (f u (idle d n)))
          → Safe (Kept Sane) Sane S (
              ((stop_if (not p || e) (refused chat_data_invalid) >>= λ _. pure u) >>= f) (idle d n))
      go true true k = v
      go true false k = k refl refl
      go false e k = v

module _ (env : Env) (actor : ℤ) (req : PrivacyRequest)
    (others : (n : ℕ) (d : Db) → Sane d → Sane (env.interfere n d)) where
  apply_command-Safe :
      (command : Command) (S : Unit {0} → Conn → Type 0) (d : Db) (n : ℕ)
      → Sane d
      → ((d' : Db) (n' : ℕ) → Sane d' → S tt (idle d' n'))
      → Safe (Kept Sane) Sane S (apply_command env actor req command (idle d n))
  unfolding apply_command pure stop
  apply_command-Safe set_retention S d n v h = retention_value-Safe S d n v req.seconds _ λ m e.
      statement-ends (Kept Sane) Sane S env _ d n (others n d v)
        λ n'. h _ n' (put_retention-Sane actor m _ e (others n d v))
  apply_command-Safe set_policies S d n v h = policy_value-Safe S d n v req.search_policy _ λ a p.
      policy_value-Safe S d n v req.request_policy _ λ b q.
        policy_value-Safe S d n v req.profile_policy _ λ c s.
          flag_value-Safe S d n v req.read_receipts _ λ r.
            statement-ends (Kept Sane) Sane S env _ d n (others n d v)
              λ n'. h _ n' (put_privacy-Sane actor a b c r _ p q s (others n d v))
  apply_command-Safe block S d n v h = other_user-Safe S d n v actor req.uid _ λ u p q.
      statement-ends (Kept Sane) Sane S env _ d n (others n d v)
        λ n'. h _ n' (put_block-Sane actor u _ p q (others n d v))
  apply_command-Safe unblock S d n v h = other_user-Safe S d n v actor req.uid _ λ u p q.
      statement-ends (Kept Sane) Sane S env _ d n (others n d v)
        λ n'. h _ n' (delete_block-Sane actor u _ (others n d v))
  apply_command-Safe get_settings S d n v h = h d n v
  apply_command-Safe unknown_action S d n v h = v

  read_settings-Safe :
      (after : ℤ) (d : Db) (n : ℕ)
      → Sane d
      → Safe (Kept Sane) Sane (Kept Sane) (read_settings env actor after (idle d n))
  unfolding read_settings pure
  read_settings-Safe after d n v =
      statement-idle (Kept Sane) Sane (Kept Sane) env _ _ d n (others n d v) λ n1.
        statement-idle (Kept Sane) Sane (Kept Sane) env _ _ _ n1 (others n1 _ (others n d v)) λ n2.
          stop_if-Safe (Kept Sane) Sane (Kept Sane) _ _ _ _ (λ _. others n1 _ (others n d v))
            λ _.
              statement-idle (Kept Sane) Sane (Kept Sane) env _ _ _ n2
                (others n2 _ (others n1 _ (others n d v)))
                λ n3. others n2 _ (others n1 _ (others n d v))

  run_command-Safe :
      (command : Command) (d : Db) (n : ℕ)
      → Sane d
      → Safe (Kept Sane) Sane (Kept Sane) (run_command env actor req command (idle d n))
  unfolding run_command
  run_command-Safe command d n v =
      Safe-bind (Kept Sane) Sane (Kept Sane) (apply_command env actor req command) _ (idle d n) (
        apply_command-Safe command _ d n v
          λ d' n' v'. read_settings-Safe (after_of command req.after_uid) d' n' v')

  -- Whatever the request says, whichever of its calls fail and whatever others commit as long as that
  -- keeps it: policies stay 0, 1 or 2, retentions those that a user may choose, nobody is blocked by
  -- themselves, and no transaction is left open.
  pub privacy_command-Over :
      (c : Conn) → Over Sane c → Over Sane (privacy_command env actor req c).1
  unfolding privacy_command command_on catching
  privacy_command-Over c v = go req.action
    where
      leased :
          (b : Bool) (t : Text)
          → Over Sane
              (if b
                then (refused chat_data_invalid, c)
                else catching
                    (with_lease env (run_command env actor req (command_of t)))
                    (refused chat_database_failed)
                    c).1
      leased true t = v
      leased false t =
          leased-Over Sane env (run_command env actor req (command_of t)) c
            (run_command-Safe (command_of t)) v

      go : (action : Option Text) → Over Sane (command_on env actor req action c).1
      go none = v
      go (some t) = leased (not (is_positive actor)) t
