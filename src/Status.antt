-- ===== src/Status.antt =====
-- StatusServer/src/StatusServiceImpl.cpp: the choice of a chat server, and the token of a login. The
-- counts and the tokens are in Redis.
pub mod Choice
pub mod Tests
use sakura_chat_server.Prelude.{
  ℕ, ◌+◌, ◌-◌, ◌*◌, Text, ascii, text_eq, ℤ, pos, is_positive, Bool, true, false, not, ◌&&◌, ◌||◌,
  Option, none, some, List, [], ◌∷◌, ◌++◌, leb, ltb, is_empty, ◌==◌, if◌then◌else◌,
}
use sakura_chat_server.Redis.{Server, World, h_get, get, set_ex}

-- `ChatServer`
pub record ChatServer : Type 0 where
  pub host : Text
  pub port : Text
  pub name : Text
  pub con_count : ℕ

-- `INT_MAX`
abbrev pub int_max_value : ℕ
int_max_value = 2147483647

abbrev pub is_space : ℕ → Bool
is_space c = (c == 32) || (leb 9 c && leb c 13)

abbrev pub is_digit : ℕ → Bool
is_digit c = leb b'0' c && leb c b'9'

-- `std::stoi` of a text that it must consume whole: blanks, a sign, digits; `none` where it throws, stops
-- early, or gives a negative number.
unfoldable pub digits_value : ℕ → Text → Option ℕ
digits_value acc [] = if ltb int_max_value acc then none else some acc
digits_value acc (c ∷ cs) =
    let rest = digits_value (acc * 10 + (c - b'0')) cs in if is_digit c then rest else none

unfoldable pub unsigned_value : Text → Option ℕ
unfolding digits_value
unsigned_value [] = none
unsigned_value (c ∷ cs) = digits_value 0 (c ∷ cs)

-- After a minus only a zero is not negative.
abbrev pub zero_only : Option ℕ → Option ℕ
zero_only none = none
zero_only (some n) = if n == 0 then some 0 else none

unfoldable pub count_of : Text → Option ℕ
unfolding unsigned_value
count_of [] = none
count_of (c ∷ cs) =
    let rest = count_of cs in
    if is_space c
    then rest
    else if c == b'-'
    then zero_only (unsigned_value cs)
    else if c == b'+'
    then unsigned_value cs
    else unsigned_value (c ∷ cs)

-- One server of the loop of `getChatServer`, with the count that Redis has for it.
unfoldable pub better : Option ℕ → ChatServer → ChatServer → ChatServer
better none s best = best
better (some n) s best = if ltb n best.con_count then record s { con_count = n } else best

-- The server that no count is below.
abbrev pub no_server : ChatServer
no_server = record { host = []; port = []; name = []; con_count = int_max_value }

-- The loop, in the order of the map, over the texts that Redis has.
unfoldable pub best_of : List (ChatServer × Text) → ChatServer → ChatServer
unfolding better count_of
best_of [] best = best
best_of ((s, t) ∷ rest) best = best_of rest (better (count_of t) s best)

-- The reply of `GetChatServer`; `none` is a gRPC error status.
pub record ServerReply : Type 0 where
  pub error : ℕ
  pub host : Text
  pub port : Text
  pub token : Text

pub record LoginReply : Type 0 where
  pub error : ℕ

abbrev pub rpc_failed : ℕ
rpc_failed = 1002

abbrev pub uid_invalid : ℕ
uid_invalid = 1011

abbrev pub token_invalid : ℕ
token_invalid = 1010

-- `"_utoken" + std::to_string(uid)`; the printing is given.
abbrev pub token_key : (ℤ → Text) → ℤ → Text
token_key to_string uid = ascii "_utoken" ++ to_string uid

module _ {S : Type 0} (server : Server S) (digest : Text → Text) (to_string : ℤ → Text) where
  -- The counts, as one `HGet` for each server.
  unfoldable pub read_counts : List ChatServer → World S → List (ChatServer × Text) × World S
  unfolding h_get
  read_counts [] w = ([], w)
  read_counts (s ∷ ss) w =
      let (t, w1) = h_get server (ascii "_logincount") s.name w in
      let (rest, w2) = read_counts ss w1 in ((s, t) ∷ rest, w2)

  -- `getChatServer`
  unfoldable pub get_chat_server : List ChatServer → World S → ChatServer × World S
  unfolding read_counts best_of
  get_chat_server ss w = let (counts, w') = read_counts ss w in (best_of counts no_server, w')

  -- `insertToken`, for twelve hours
  unfoldable pub insert_token : ℤ → Text → World S → Bool × World S
  unfolding set_ex
  insert_token uid token w =
      set_ex server (token_key to_string uid) (digest token) (pos (12 * 60 * 60)) to_string w

  -- The end of `GetChatServer`: the token is sent only if Redis has it.
  unfoldable pub reply_with : ChatServer → Text → Bool → ServerReply
  reply_with s token true = record { error = 0; host = s.host; port = s.port; token = token }
  reply_with s token false = record { error = rpc_failed; host = s.host; port = s.port; token = [] }

  unfoldable pub reply_server : ℤ → Text → ChatServer → World S → Option ServerReply × World S
  unfolding insert_token reply_with
  reply_server uid token s w =
      if is_empty s.name
      then (some (record { error = rpc_failed; host = []; port = []; token = [] }), w)
      else if not (is_positive uid)
      then (none, w)
      else let (stored, w') = insert_token uid token w in (some (reply_with s token stored), w')

  -- `GetChatServer`, for the service that the certificate names, with the token that was drawn
  unfoldable pub get_chat_server_rpc :
      Bool → ℤ → Text → List ChatServer → World S → Option ServerReply × World S
  unfolding get_chat_server reply_server
  get_chat_server_rpc permitted uid token ss w =
      if not permitted
      then (none, w)
      else let (s, w') = get_chat_server ss w in reply_server uid token s w'

  -- `Login`
  unfoldable pub check_login : Text → Option Text → LoginReply
  check_login token none = record { error = uid_invalid }
  check_login token (some value) =
      if text_eq value (digest token)
      then record { error = 0 }
      else record { error = token_invalid }

  unfoldable pub login : ℤ → Text → World S → LoginReply × World S
  unfolding get check_login
  login uid token w =
      let (value, w') = get server (token_key to_string uid) w in (check_login token value, w')
