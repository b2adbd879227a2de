-- ===== src/Passwords.antt =====
-- Common/include/PasswordSecurity.h: the passwords that may be chosen, and their hashes. libsodium is an
-- argument: its hash of a password under a draw of the random salt, its test, and its random bytes.
use sakura_chat_server.Prelude.{
  ℕ, Text, ascii, text_eq, Bool, true, not, ◌&&◌, Option, none, some, length, leb, take, first,
  ◌==◌, ◌≡◌, if◌then◌else◌, arith,
}
use sakura_chat_server.Database.{is_some}

pub record Sodium : Type 0 where
  pub pwhash_str : ℕ → Text → Option Text
  pub pwhash_str_verify : Text → Text → Bool
  pub random_hex : ℕ → Text
  pub generichash_hex : Text → Text

-- `text.find(c) != npos`
unfoldable pub contains : ℕ → Text → Bool
contains c t = is_some (first (λ x. x == c) t)

-- `PasswordSecurity::Valid`
unfoldable pub valid_password : Text → Bool
unfolding contains
valid_password p = leb 8 (length p) && (leb (length p) 128 && not (contains 0 p))

-- `PasswordSecurity::Hash`; `none` is an exception.
unfoldable pub hash_password : Sodium → ℕ → Text → Option Text
unfolding valid_password
hash_password sodium salt p = if valid_password p then sodium.pwhash_str salt p else none

-- `encoded.rfind("$argon2id$", 0) == 0`
unfoldable pub is_argon : Text → Bool
unfolding text_eq ascii
is_argon encoded = text_eq (take 10 encoded) (ascii "$argon2id$")

-- `PasswordSecurity::Verify`
unfoldable pub verify_password : Sodium → Text → Text → Bool
unfolding is_argon
verify_password sodium encoded p =
    leb (length p) 128 && (is_argon encoded && sodium.pwhash_str_verify encoded p)

-- What libsodium documents: a hash is an encoded Argon2id string, not empty, and its test accepts the
-- password that was hashed.
pub record Documented (sodium : Sodium) : Type 0 where
  pub encoded_argon :
      (salt : ℕ) (p e : Text) → sodium.pwhash_str salt p ≡ some e → is_argon e ≡ true
  pub verified :
      (salt : ℕ) (p e : Text)
      → sodium.pwhash_str salt p ≡ some e
      → sodium.pwhash_str_verify e p ≡ true

-- A hash of a password is verified by it.
pub verify_password-hash_password :
    (sodium : Sodium)
    → Documented sodium
    → (salt : ℕ) (p e : Text) → hash_password sodium salt p ≡ some e
    → verify_password sodium e p ≡ true
unfolding hash_password verify_password valid_password is_argon contains
verify_password-hash_password sodium d salt p e h =
    ground (arith, d.encoded_argon salt p e, d.verified salt p e)
