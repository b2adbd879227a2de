-- ===== src/Session/Reading.antt =====
-- The reads of a session: a message that comes in pieces is put together, and posted.
use sakura_chat_server.Prelude.{
  ℕ, zero, suc, ◌+◌, ◌≤◌, ◌<◌, ◌≡◌, refl, ap, ◌∙◌, Text, false, some, List, [], ◌∷◌, ◌++◌, arith,
  length, take, length-take, replicate, ◌^◌, ◌%◌,
}
use sakura_chat_server.Wire.Frame.{
  IdNode, max_length, short_max, write_at, network_short, accepted, parse_head,
}
use sakura_chat_server.Wire.Frame.Roundtrip.{parse_head-framed}
use sakura_chat_server.Session.Calls.{head, body, post_msg, arm_read, read_some}
use sakura_chat_server.Session.Pieces.{
  feed, joined, AllNonempty, take-write_at, with_buffer, feed-Filled,
}
use sakura_chat_server.Session.{
  Session, Outcome, on_full, zeroed, on_head, begin_body, on_body, fill,
}

-- A write behind the first `n` bytes leaves them.
take-write_at_le : (n i : ℕ) (bs xs : List ℕ) → n ≤ i → take n (write_at i bs xs) ≡ take n xs
unfolding write_at
take-write_at_le zero i bs xs h = refl
take-write_at_le (suc n) zero bs xs h = absurd (omega arith)
take-write_at_le (suc n) (suc i) bs [] h = refl
take-write_at_le (suc n) (suc i) bs (x ∷ xs) h =
    ap (◌∷◌ x) (take-write_at_le n i bs xs (omega arith))

length-replicate : (n x : ℕ) → length (replicate n x) ≡ n
length-replicate zero x = refl
length-replicate (suc n) x = ap suc (length-replicate n x)

-- The node of a body of `n` bytes, as it is made and once it is filled.
abbrev pub fresh_body : ℕ → ℕ → IdNode
fresh_body n id = record {
  node = record { cur_len = 0; total_len = n; bytes = replicate (n + 1) 0 };
  msg_id = id;
}

take-fill :
    (n id : ℕ) (buffer : List ℕ)
    → n ≤ length buffer
    → take n (fill (fresh_body n id) buffer n).bytes ≡ take n buffer
unfolding fill
take-fill n id buffer h =
    let size : length (take n buffer) ≡ n = length-take n buffer h in
    let room : length {A = ℕ} (replicate (n + 1) 0) ≡ n + 1 = length-replicate (n + 1) 0 in
    take-write_at_le n n (0 ∷ []) (write_at 0 (take n buffer) (replicate (n + 1) 0)) (omega arith)
    ∙ take-write_at n 0 (take n buffer) (replicate (n + 1) 0) (omega arith) (omega arith)

fill-msg_id : (n id : ℕ) (buffer : List ℕ) → (fill (fresh_body n id) buffer n).msg_id ≡ id
unfolding fill
fill-msg_id n id buffer = refl

fill-cur_len : (n id : ℕ) (buffer : List ℕ) → (fill (fresh_body n id) buffer n).cur_len ≡ n
unfolding fill
fill-cur_len n id buffer = omega arith

on_body-open :
    (s : Session) (n : IdNode) (total now : ℕ)
    → s.closed ≡ false
    → s.recv_msg_node ≡ some n
    → 10 ^ 9 ≤ s.packet_budget
    → (on_body s false total total now).1
      ≡ post_msg (fill n s.read_buffer total)
        ∷ arm_read ((s.read_generation + 1) % 2 ^ 64) 120
        ∷ read_some head 0 4
        ∷ []
unfolding on_body
on_body-open s n total now open_ made paid = ground arith

length-zeroed : length zeroed ≡ max_length
unfolding zeroed
length-zeroed = length-replicate max_length 0

-- A message that is awaited: its node is made, the buffer is empty, and the session is open.
pub record Awaits (s : Session) (len id : ℕ) : Type 0 where
  pub open_ : s.closed ≡ false
  pub made : s.recv_msg_node ≡ some (fresh_body len id)
  pub blank : s.read_buffer ≡ zeroed

-- A session that awaits a body of a length from 1 to 2048, and has budget for a packet, posts one
-- message when the body has come in, whatever the pieces: its bytes are the body, its id the id of
-- the head; and then the next head is read, under a new deadline of 120 seconds.
pub body_posted :
    (s : Session) (msg : Text) (id now : ℕ) (c : List ℕ) (cs : List (List ℕ))
    → AllNonempty cs
    → c ++ joined cs ≡ msg
    → length msg ≤ max_length
    → Awaits s (length msg) id
    → 10 ^ 9 ≤ s.packet_budget
    → (n : IdNode) × ((feed (body (length msg)) (length msg) now 0 s (c ∷ cs)).1
        ≡ post_msg n ∷ arm_read ((s.read_generation + 1) % 2 ^ 64) 120 ∷ read_some head 0 4 ∷ [])
      × (n.msg_id ≡ id)
      × (take n.cur_len n.bytes ≡ msg)
unfolding on_full
body_posted s msg id now c cs ne whole fits w paid =
    let room : length s.read_buffer ≡ max_length = ap length w.blank ∙ length-zeroed in
    let f =
      feed-Filled (body (length msg)) (length msg) now 0 s c cs ne (omega (arith, ap length whole))
        (omega arith) in
    let n = fill (fresh_body (length msg) id) f.buffer (length msg) in
    let stored : (with_buffer s f.buffer).recv_msg_node ≡ some (fresh_body (length msg) id) =
      w.made in
    let posted =
      on_body-open (with_buffer s f.buffer) (fresh_body (length msg) id) (length msg) now w.open_
        stored paid in
    (
      n,
      ap (λ (o : Outcome). o.1) f.handled ∙ posted,
      fill-msg_id (length msg) id f.buffer,
      ap (λ k. take k n.bytes) (fill-cur_len (length msg) id f.buffer)
          ∙ (take-fill (length msg) id f.buffer (omega (arith, f.room)) ∙ (f.is_prefix ∙ whole)),
    )

-- The tests on a head look at its four bytes alone.
parse_head-take :
    (buffer : List ℕ) → 4 ≤ length buffer → parse_head buffer ≡ parse_head (take 4 buffer)
unfolding parse_head
parse_head-take (a ∷ b ∷ c ∷ d ∷ rest) h = refl
parse_head-take [] h = absurd (omega arith)
parse_head-take (a ∷ []) h = absurd (omega arith)
parse_head-take (a ∷ b ∷ []) h = absurd (omega arith)
parse_head-take (a ∷ b ∷ c ∷ []) h = absurd (omega arith)

on_head-open :
    (s : Session) → s.closed ≡ false → on_head s false 4 ≡ begin_body s (parse_head s.read_buffer)
unfolding on_head
on_head-open s open_ = ground arith

begin_body-accepted :
    (s : Session) (len id : ℕ)
    → s.closed ≡ false
    → 0 < len
    → len ≤ max_length
    → (t : Session) × (begin_body s (accepted id len)
        ≡ (t, arm_read ((s.read_generation + 1) % 2 ^ 64) 15 ∷ read_some (body len) 0 len ∷ []))
      × Awaits t len id
      × (t.packet_budget ≡ s.packet_budget)
unfolding begin_body
begin_body-accepted s len id open_ pos fits = (
  record s {
    recv_msg_node = some (fresh_body len id);
    read_generation = (s.read_generation + 1) % 2 ^ 64;
    read_buffer = zeroed;
  },
  ground arith,
  record { open_ = open_; made = refl; blank = refl },
  refl,
)

-- The head of any frame that `SendNode` lays out for a positive id and 1 to 2048 bytes, in whatever
-- pieces it comes in, makes an open session wait for the body of that frame, under a new deadline
-- of 15 seconds and with its budget untouched.
pub head_accepted :
    (s : Session) (msg : Text) (id now : ℕ) (c : List ℕ) (cs : List (List ℕ))
    → AllNonempty cs
    → c ++ joined cs ≡ network_short id ++ network_short (length msg)
    → 0 < id
    → id ≤ short_max
    → 0 < length msg
    → length msg ≤ max_length
    → s.closed ≡ false
    → s.read_buffer ≡ zeroed
    → (t : Session) × (feed head 4 now 0 s (c ∷ cs) ≡ (
      t,
      arm_read ((s.read_generation + 1) % 2 ^ 64) 15
          ∷ read_some (body (length msg)) 0 (length msg)
          ∷ [],
    ))
      × Awaits t (length msg) id
      × (t.packet_budget ≡ s.packet_budget)
unfolding on_full
head_accepted s msg id now c cs ne whole i j p q open_ blank =
    let room : length s.read_buffer ≡ max_length = ap length blank ∙ length-zeroed in
    let f = feed-Filled head 4 now 0 s c cs ne (omega (arith, ap length whole)) (omega arith) in
    let u = with_buffer s f.buffer in
    let parsed : parse_head f.buffer ≡ accepted id (length msg) =
      parse_head-take f.buffer (omega (arith, f.room))
      ∙ (ap parse_head (f.is_prefix ∙ whole) ∙ parse_head-framed msg [] id i j p q) in
    let (t, run, w, kept) = begin_body-accepted u (length msg) id open_ p q in
    (t, f.handled ∙ (on_head-open u open_ ∙ (ap (begin_body u) parsed ∙ run)), w, kept)
