-- ===== src/Wire/Frame.antt =====
-- ChatServer/src/MsgNode.cpp: message buffers, and the frame of id, length and body that a
-- `SendNode` lays out. A `short` is its 16-bit pattern: 32768 and above stand for the negatives.
pub mod Roundtrip
use sakura_chat_server.Prelude.{
  ℕ, zero, suc, ◌+◌, ◌*◌, ◌/◌, ◌%◌, Text, Bool, ◌||◌, Option, none, some, List, [], ◌∷◌, leb, ltb,
  take, replicate, ◌==◌, if◌then◌else◌,
}

-- `HEAD_TOTAL_LEN`, `HEAD_ID_LEN`, `MAX_LENGTH`
abbrev pub head_total_len : ℕ
head_total_len = 4

abbrev pub head_id_len : ℕ
head_id_len = 2

abbrev pub max_length : ℕ
max_length = 2048

-- `std::numeric_limits<short>::max()`
abbrev pub short_max : ℕ
short_max = 32767

-- The conversion of an `int` to `short`.
abbrev pub to_short : ℕ → ℕ
to_short n = n % 65536

-- `x <= 0` on a `short`
abbrev pub is_nonpositive : ℕ → Bool
is_nonpositive x = (x == 0) || leb 32768 x

pub record MsgNode : Type 0 where
  pub cur_len : ℕ
  pub total_len : ℕ
  pub bytes : List ℕ

-- `memcpy` into a buffer at an offset. What would run past the end is not written.
unfoldable pub write_at : ℕ → List ℕ → List ℕ → List ℕ
write_at _ _ [] = []
write_at zero [] (x ∷ xs) = x ∷ xs
write_at zero (b ∷ bs) (x ∷ xs) = b ∷ write_at zero bs xs
write_at (suc i) bs (x ∷ xs) = x ∷ write_at i bs xs

-- `MsgNode::MsgNode`; `none` is the `invalid_argument` that it throws.
unfoldable pub new_node : ℕ → Option MsgNode
new_node max_len =
    if is_nonpositive max_len
    then none
    else some (record { cur_len = 0; total_len = max_len; bytes = replicate (max_len + 1) 0 })

-- `MsgNode::Clear`
unfoldable pub clear : MsgNode → MsgNode
unfolding write_at
clear n = record n { cur_len = 0; bytes = write_at 0 (replicate n.total_len 0) n.bytes }

-- A node with the id of its message: `RecvNode`, `SendNode`.
pub record IdNode : Type 0 where
  pub node : MsgNode
  pub open node use *
  pub msg_id : ℕ

-- `RecvNode::RecvNode`
unfoldable pub recv_node : ℕ → ℕ → Option IdNode
unfolding new_node
recv_node max_len msg_id = elim (new_node max_len) [
  | none ↦ none
  | some n ↦ some (record { node = n; msg_id = msg_id })
]

-- `host_to_network_short`, as the two bytes that it leaves in memory.
abbrev pub network_short : ℕ → List ℕ
network_short x = (x / 256 % 256) ∷ (x % 256) ∷ []

-- The three `memcpy` of `SendNode::SendNode`.
unfoldable pub lay_out : Text → ℕ → ℕ → List ℕ → List ℕ
unfolding write_at
lay_out msg max_len msg_id buffer =
    write_at 4 (take max_len msg)
      (write_at 2 (network_short max_len) (write_at 0 (network_short msg_id) buffer))

-- `SendNode::SendNode`
unfoldable pub send_node : Text → ℕ → ℕ → Option IdNode
unfolding new_node lay_out
send_node msg max_len msg_id = elim (new_node (to_short (max_len + head_total_len))) [
  | none ↦ none
  | some n ↦
      some
        (record { node = record n { bytes = lay_out msg max_len msg_id n.bytes }; msg_id = msg_id })
]

-- `boost::asio::buffer(msgnode->_data, msgnode->_total_len)`: what is written to the socket.
unfoldable pub wire : IdNode → List ℕ
wire n = take n.total_len n.bytes

-- `network_to_host_short` of two bytes in memory.
abbrev pub host_short : List ℕ → ℕ → ℕ
host_short (hi ∷ lo ∷ rest) zero = hi * 256 + lo
host_short (x ∷ xs) (suc i) = host_short xs i
host_short _ _ = 0

-- What the reader makes of a head (CSession.cpp, the handler in `AsyncReadHead`).
pub data Head : Type 0 where
  bad_id bad_len : Head
  accepted : ℕ → ℕ → Head

-- The tests of that handler, in its order.
unfoldable pub parse_head : List ℕ → Head
parse_head bytes =
    let id = host_short bytes 0 in
    let len = host_short bytes head_id_len in
    if (id == 0) || ltb short_max id
    then bad_id
    else if (len == 0) || ltb max_length len
    then bad_len
    else accepted id len
