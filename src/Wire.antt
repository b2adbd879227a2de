-- ===== src/Wire.antt =====
-- Common/include/ChatWire.h: which identifiers and texts a chat request may carry.
pub mod Shape
pub mod Frame
pub mod Tests
use sakura_chat_server.Prelude.{
  ℕ, zero, suc, ◌+◌, Text, Bool, true, false, not, ◌&&◌, ◌||◌, [], ◌∷◌, length, leb, is_empty, ◌==◌,
  if◌then◌else◌,
}

-- `BodyLimit`
abbrev pub body_limit : ℕ
body_limit = 1800

-- `c >= '0' && c <= '9' || c >= 'a' && c <= 'f' || c >= 'A' && c <= 'F'`
unfoldable pub is_hex : ℕ → Bool
is_hex c = (leb b'0' c && leb c b'9') || ((leb b'a' c && leb c b'f') || (leb b'A' c && leb c b'F'))

-- `i == 8 || i == 13 || i == 18 || i == 23`
abbrev pub dash_at : ℕ → Bool
dash_at i = (i == 8) || ((i == 13) || ((i == 18) || (i == 23)))

-- The body of the loop over the characters, at index `i`.
unfoldable pub uuid_char : ℕ → ℕ → Bool
uuid_char i c = if dash_at i then c == b'-' else is_hex c

-- The loop from index `i` on.
unfoldable pub uuid_from : ℕ → Text → Bool
uuid_from i [] = true
uuid_from i (c ∷ cs) = uuid_char i c && uuid_from (i + 1) cs

-- `ChatWire::Uuid`
unfoldable pub uuid : Text → Bool
uuid id = if length id == 36 then uuid_from 0 id else false

-- `ChatWire::Text`
unfoldable pub valid_text : Text → Text → Bool
valid_text id content = uuid id && (not (is_empty content) && leb (length content) 512)
