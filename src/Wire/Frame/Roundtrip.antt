-- ===== src/Wire/Frame/Roundtrip.antt =====
-- What a frame carries, and that the reader of the same program takes it back.
use sakura_chat_server.Prelude.{
  ℕ, zero, suc, ◌+◌, ◌≤◌, ◌<◌, ◌≡◌, refl, Text, some, List, [], ◌∷◌, ◌++◌, arith, length, take,
  drop, replicate, take_all, ap,
}
use sakura_chat_server.Wire.Frame.{
  MsgNode, IdNode, max_length, head_total_len, to_short, short_max, network_short, write_at,
  new_node, lay_out, send_node, wire, accepted, parse_head,
}

write_at-nil : (xs : List ℕ) → write_at 0 [] xs ≡ xs
unfolding write_at
write_at-nil [] = refl
write_at-nil (x ∷ xs) = refl

-- Copying a text to the start of a zeroed buffer that is longer by `k`.
write_at-replicate :
    (bs : List ℕ) (k n : ℕ)
    → n ≡ length bs + k
    → write_at 0 bs (replicate n 0) ≡ bs ++ replicate k 0
unfolding write_at
write_at-replicate [] zero zero e = refl
write_at-replicate [] zero (suc n) e = absurd (omega arith)
write_at-replicate [] (suc k) zero e = absurd (omega arith)
write_at-replicate [] (suc k) (suc n) e =
    ap (λ m. 0 ∷ replicate m 0) (let e' : n ≡ k = omega arith in e')
write_at-replicate (b ∷ bs) k zero e = absurd (omega arith)
write_at-replicate (b ∷ bs) k (suc n) e = ap (◌∷◌ b) (write_at-replicate bs k n (omega arith))

take-length-append : (xs ys : List ℕ) → take (length xs) (xs ++ ys) ≡ xs
take-length-append [] ys = refl
take-length-append (x ∷ xs) ys = ap (◌∷◌ x) (take-length-append xs ys)

-- The whole buffer: two bytes of id, two of length, the body, and the zero behind it.
lay_out_lem :
    (msg : Text) (id n : ℕ)
    → n ≡ length msg + 5
    → lay_out msg (length msg) id (replicate n 0)
      ≡ network_short id ++ (network_short (length msg) ++ (msg ++ 0 ∷ []))
unfolding lay_out write_at
lay_out_lem msg id n e =
    let m : n ≡ suc (suc (suc (suc (length msg + 1)))) = omega arith in
    rw (
      m,
      take_all (length msg) msg refl,
      write_at-nil,
      write_at-replicate msg 1 (length msg + 1) refl,
    )

fresh_node : ℕ → MsgNode
fresh_node n = record { cur_len = 0; total_len = n; bytes = replicate (n + 1) 0 }

new_node_lem : (n : ℕ) → 0 < n → n ≤ short_max → new_node n ≡ some (fresh_node n)
unfolding new_node fresh_node
new_node_lem n pos fits = ground arith

-- The node that `SendNode` builds for a text.
framed : Text → ℕ → IdNode
unfolding fresh_node
framed msg id = record {
  node = record (fresh_node (length msg + 4)) {
    bytes = lay_out msg (length msg) id (replicate (length msg + 4 + 1) 0);
  };
  msg_id = id;
}

send_node_lem :
    (msg : Text) (id : ℕ)
    → length msg + 4 ≤ short_max
    → send_node msg (length msg) id ≡ some (framed msg id)
unfolding send_node framed
send_node_lem msg id fits =
    let short : to_short (length msg + head_total_len) ≡ length msg + 4 = omega arith in
    rw (short, new_node_lem (length msg + 4) (omega arith) fits, send_node)

wire-framed :
    (msg : Text) (id : ℕ)
    → wire (framed msg id) ≡ network_short id ++ (network_short (length msg) ++ msg)
unfolding wire framed
wire-framed msg id =
    let four : length msg + 4 ≡ suc (suc (suc (suc (length msg)))) = omega arith in
    rw (lay_out_lem msg id (length msg + 4 + 1) (omega arith)) (
      rw four (
        ap (λ t. network_short id ++ (network_short (length msg) ++ t))
          (take-length-append msg (0 ∷ []))))

-- Every text that `CSession::Send` lets through is laid out as the network bytes of its id and of
-- its length, and then the text, and no byte more goes to the socket.
pub wire-send_node :
    (msg : Text) (id : ℕ)
    → length msg + 4 ≤ short_max
    → (n : IdNode) × (send_node msg (length msg) id ≡ some n)
      × (wire n ≡ network_short id ++ (network_short (length msg) ++ msg))
wire-send_node msg id fits = (framed msg id, send_node_lem msg id fits, wire-framed msg id)

pub parse_head-framed :
    (msg body : Text) (id : ℕ)
    → 0 < id
    → id ≤ short_max
    → 0 < length msg
    → length msg ≤ max_length
    → parse_head (network_short id ++ (network_short (length msg) ++ body))
      ≡ accepted id (length msg)
unfolding parse_head
parse_head-framed msg body id i j p q = ground arith

-- A frame for a positive id and a text of 1 to 2048 bytes is read back by the head's handler: the
-- first four bytes give that id and that length, and what follows them is the text.
pub parse_head-send_node :
    (msg : Text) (id : ℕ)
    → 0 < id
    → id ≤ short_max
    → 0 < length msg
    → length msg ≤ max_length
    → (n : IdNode) × (send_node msg (length msg) id ≡ some n)
      × (parse_head (take 4 (wire n)) ≡ accepted id (length msg))
      × (drop 4 (wire n) ≡ msg)
parse_head-send_node msg id i j p q = (
  framed msg id,
  send_node_lem msg id (omega arith),
  rw (wire-framed msg id) (parse_head-framed msg [] id i j p q),
  rw (wire-framed msg id),
)
