-- ===== src/Accounts/Tests.antt =====
-- Accounts, friends and connections at concrete inputs.
use sakura_chat_server.Prelude.{
  ℕ, ◌+◌, ◌≡◌, refl, subst, some-injective, Text, ascii, text_eq, text_eq_self, pos, negsuc, true,
  false, Option, none, some, List, [], ◌∷◌, ◌++◌, drop, length, ◌⊎◌,
}
use sakura_chat_server.Database.{Db}
use sakura_chat_server.Database.Sql.{Env, ◌>>=◌, pure, statement}
use sakura_chat_server.Database.Triple.{committed, idle}
use sakura_chat_server.Persistence.Tests.{two_friends}
use sakura_chat_server.Passwords.{Sodium, Documented, is_argon, hash_password}
use sakura_chat_server.Accounts.Pool.{
  PoolEvent, takes, gives, discards, checks, closes, connect_all, opened_pool, pool_run,
}
use sakura_chat_server.Accounts.Pool.Balance.{Balanced, count_discards, opened_pool-Balanced}
use sakura_chat_server.Accounts.Procedures.{trim, resolve_friend_apply}
use sakura_chat_server.Accounts.Users.{reg_user_method, check_pwd, blank_user}
use sakura_chat_server.Accounts.Users.Unique.{UniqueUsers, reg_user_method-UniqueUsers}
use sakura_chat_server.Accounts.Users.Login.{check_pwd-reg_user_method}
use sakura_chat_server.Accounts.Friends.{resolve_friend_apply_method, get_friend_page}
use sakura_chat_server.Accounts.Friends.Mutual.{
  befriends, Mutual, resolve_friend_apply_method-Mutual,
}
use sakura_chat_server.Accounts.Friends.Consent.{Consent, resolve_friend_apply-Consent}

-- A pool of two, of which a third could not be opened.
abbrev two_opened : List (Option ℕ)
two_opened = some 7 ∷ some 8 ∷ none ∷ []

abbrev a_day : List PoolEvent
a_day =
    takes
    ∷ takes
    ∷ takes
    ∷ gives 1
    ∷ checks (record { answers = λ c. false; reconnect = λ c. some (c + 10) }) 90
    ∷ takes
    ∷ discards 0
    ∷ closes
    ∷ gives 0
    ∷ gives 0
    ∷ []

after_a_day :
    let s = pool_run (opened_pool 0 two_opened) a_day in
    (length s.lent ≡ 0) × ((s.dropped ≡ 1) × (s.discarded ≡ 1))
unfolding pool_run opened_pool
after_a_day = (refl, (refl, refl))

opened_pool-Balanced_example :
    Balanced
      (length (connect_all 0 two_opened).0)
      (count_discards a_day)
      (pool_run (opened_pool 0 two_opened) a_day)
opened_pool-Balanced_example = opened_pool-Balanced 0 two_opened a_day

-- No salt, and the password itself behind the mark.
abbrev pub toy_sodium : Sodium
toy_sodium = record {
  pwhash_str = λ salt p. some (ascii "$argon2id$" ++ p);
  pwhash_str_verify = λ e p. text_eq (drop 10 e) p;
  random_hex = λ n. [];
  generichash_hex = λ t. t;
}

toy_sodium-Documented : Documented toy_sodium
unfolding is_argon ascii text_eq
toy_sodium-Documented = record {
  encoded_argon = λ salt p e h.
      subst (λ x. is_argon x ≡ true) (some-injective (ascii "$argon2id$" ++ p) e h) refl;
  verified = λ salt p e h.
      subst (λ x. text_eq (drop 10 x) p ≡ true) (some-injective (ascii "$argon2id$" ++ p) e h)
        (text_eq_self p);
}

abbrev pub quiet : Env
quiet = record {
  fault = λ n. none;
  commit_applied = λ n. true;
  leases = λ n. true;
  interfere = λ n d. d;
  same = text_eq;
}

abbrev new_name : Text
new_name = ascii " sakura"

abbrev new_email : Text
new_email = ascii "s@x.jp"

abbrev new_pwd : Text
new_pwd = ascii "hanami2026"

abbrev pub no_users : Db
no_users = record two_friends { users = []; last_uid = 1000 }

registered :
    (reg_user_method quiet toy_sodium
      (λ t. t)
      0
      none
      new_name
      new_email
      new_pwd
      (idle no_users 0)).0
    ≡ pos 1001
unfolding reg_user_method hash_password ascii ◌>>=◌ statement text_eq
registered = refl

taken :
    (reg_user_method quiet toy_sodium
      (λ t. t)
      0
      none
      new_name
      new_email
      new_pwd
      (reg_user_method quiet toy_sodium
        (λ t. t)
        0
        none
        new_name
        new_email
        new_pwd
        (idle no_users 0)).1).0
    ≡ pos 0
unfolding reg_user_method hash_password ascii ◌>>=◌ statement text_eq
taken = refl

check_pwd-reg_user_method_example :
    (check_pwd quiet toy_sodium new_email new_pwd blank_user
      (reg_user_method quiet toy_sodium
        (λ t. t)
        0
        none
        new_name
        new_email
        new_pwd
        (idle no_users 0)).1).0
    ≡ (true, record blank_user { name = trim new_name; email = new_email; uid = pos 1001 })
unfolding ascii text_eq trim
check_pwd-reg_user_method_example =
    check_pwd-reg_user_method quiet (λ n d. refl) toy_sodium toy_sodium-Documented (λ t. t) 0 none
      new_name new_email new_pwd refl no_users 0 1000 blank_user registered refl refl

reg_user_method-UniqueUsers_example : UniqueUsers text_eq (
    committed
      (reg_user_method quiet toy_sodium
        (λ t. t)
        0
        (some 1205)
        new_name
        new_email
        new_pwd
        (idle no_users 0)).1)
reg_user_method-UniqueUsers_example =
    reg_user_method-UniqueUsers quiet (λ n d v. v) toy_sodium (λ t. t) 0 (some 1205) new_name
      new_email new_pwd no_users 0 (record { apart = tt; fresh = tt; given = tt })

-- A request from the first user to the second.
abbrev asked : Db
asked = record two_friends {
  friends = [];
  applies =
      record {
        id = 4;
        from_uid = pos 1;
        to_uid = pos 2;
        status = 0;
        descs = [];
        back_name = ascii "two";
      }
      ∷ [];
}

agreed : befriends (pos 2) (pos 1) (resolve_friend_apply none 4 (pos 2) true asked).1.friends ≡ true
unfolding resolve_friend_apply befriends
agreed = refl

not_addressed : (resolve_friend_apply none 4 (pos 1) true asked).0 ≡ negsuc 0
unfolding resolve_friend_apply
not_addressed = refl

resolve_friend_apply-Consent_example :
    (befriends (pos 2) (pos 1) asked.friends ≡ true) ⊎ Consent asked 4 (pos 2) true (pos 2) (pos 1)
resolve_friend_apply-Consent_example =
    resolve_friend_apply-Consent none 4 (pos 2) true asked (pos 2) (pos 1) agreed

resolve_friend_apply_method-Mutual_example :
    Mutual
      (committed (resolve_friend_apply_method quiet none (pos 4) (pos 2) true (idle asked 0)).1)
unfolding befriends
resolve_friend_apply_method-Mutual_example =
    resolve_friend_apply_method-Mutual quiet (λ n d m. m) none (pos 2) true (pos 4) asked 0
      (λ a b. refl)

one_friend :
    (get_friend_page quiet (pos 1) (pos 0) (negsuc 4) (idle two_friends 0)).0.has_more ≡ false
unfolding get_friend_page ◌>>=◌ statement pure
one_friend = refl
