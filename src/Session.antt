-- ===== src/Session.antt =====
-- ChatServer/src/CSession.cpp: one connection of a client. A method returns the new state and, in
-- order, the calls that it makes of the socket, the timers, the server and the logic queue. The
-- lambdas that it hands to them are the operations that an event runs later.
pub mod Calls
pub mod Quiet
pub mod Pieces
pub mod Reading
pub mod Sending
pub mod Budget
pub mod Tests
use sakura_chat_server.Prelude.{
  ℕ, ◌+◌, ◌*◌, ◌-◌, ◌%◌, ◌^◌, Text, ℤ, pos, Bool, true, false, ◌||◌, Option, none, some, List, [],
  ◌∷◌, ◌++◌, length, leb, ltb, take, replicate, is_empty, is_positive, not, min, ◌==◌,
  if◌then◌else◌,
}
use sakura_chat_server.Wire.Frame.{
  MsgNode, IdNode, head_total_len, max_length, short_max, send_node, recv_node, wire, Head, bad_id,
  bad_len, accepted, parse_head, write_at,
}
use Calls.{
  Phase, head, body, Effect, async_write, dispatch_send, dispatch_close, arm_login, arm_read,
  read_some, post_msg, clear_session, cancel_timers, close_socket, throws,
}

-- `MAX_SENDQUE`
abbrev pub max_sendque : ℕ
max_sendque = 1000

-- The members that the methods read. `_packetBudget` is counted in units of 1e-9 packets and
-- `_budgetAt` in nanoseconds.
pub record Session : Type 0 where
  pub session_id : Text
  pub user_id : ℤ
  pub auth_digest : Text
  pub closed : Bool
  pub scheduled_sends : ℕ
  pub send_que : List IdNode
  pub read_generation : ℕ
  pub packet_budget : ℕ
  pub budget_at : ℕ
  pub read_buffer : List ℕ
  pub recv_msg_node : Option IdNode

abbrev pub Outcome : Type 0
Outcome = Session × List Effect

-- One call after another.
abbrev pub and_then : Outcome → (Session → Outcome) → Outcome
and_then (s, es) f = let (t, fs) = f s in (t, es ++ fs)

-- The constructor, with the id that boost draws and the time.
unfoldable pub new_session : Text → ℕ → Session
new_session id now = record {
  session_id = id;
  user_id = pos 0;
  auth_digest = [];
  closed = false;
  scheduled_sends = 0;
  send_que = [];
  read_generation = 0;
  packet_budget = 80 * 10 ^ 9;
  budget_at = now;
  read_buffer = [];
  recv_msg_node = none;
}

-- `Close`: the first call alone dispatches the lambda that `run_close` is.
unfoldable pub close : Session → Outcome
close s = if s.closed then (s, []) else (record s { closed = true }, dispatch_close ∷ [])

unfoldable pub run_close : Session → Outcome
run_close s = (s, cancel_timers ∷ close_socket ∷ clear_session s.session_id ∷ [])

-- `ArmReadDeadline`; `_readGeneration` is a `uint64_t`.
unfoldable pub arm_read_deadline : Session → ℕ → Outcome
arm_read_deadline s seconds =
    let generation = (s.read_generation + 1) % 2 ^ 64 in
    (record s { read_generation = generation }, arm_read generation seconds ∷ [])

-- The completion of that timer.
unfoldable pub read_deadline_fired : Session → Bool → ℕ → Outcome
unfolding close
read_deadline_fired s ec generation =
    if ec then (s, []) else if generation == s.read_generation then close s else (s, [])

-- The completion of the timer that `Start` sets.
unfoldable pub login_deadline_fired : Session → Bool → Outcome
unfolding close
login_deadline_fired s ec =
    if ec then (s, []) else if is_positive s.user_id then (s, []) else close s

-- What every refusal in the read handlers does: `Close` and `ClearSession`.
unfoldable pub refuse : Session → Outcome
unfolding close
refuse s = and_then (close s) (λ t. (t, clear_session t.session_id ∷ []))

-- `memset(_data, 0, MAX_LENGTH)`
unfoldable pub zeroed : List ℕ
zeroed = replicate max_length 0

-- `asyncReadFull`: a length out of range calls the handler at once, with an error; and the first
-- call of `asyncReadLen`.
unfoldable pub async_read_full : Phase → ℕ → Session → Outcome
unfolding refuse
async_read_full phase total s =
    if (total == 0) || ltb max_length total
    then refuse s
    else (record s { read_buffer = zeroed }, read_some phase 0 total ∷ [])

-- `AsyncReadHead`, `AsyncReadBody`
unfoldable pub async_read_head : Session → Outcome
unfolding arm_read_deadline async_read_full
async_read_head s =
    if s.closed
    then (s, [])
    else and_then (arm_read_deadline s 120) (async_read_full head head_total_len)

unfoldable pub async_read_body : ℕ → Session → Outcome
unfolding arm_read_deadline async_read_full
async_read_body total s =
    if s.closed
    then (s, [])
    else and_then (arm_read_deadline s 15) (async_read_full (body total) total)

-- `Start`, on the strand
unfoldable pub start : Session → Outcome
unfolding async_read_head
start s = if s.closed then (s, []) else and_then (s, arm_login 15 ∷ []) async_read_head

-- A `RecvNode` for the body, and the read of it.
begin_body : Session → Head → Outcome
unfolding refuse async_read_body recv_node
begin_body s bad_id = refuse s
begin_body s bad_len = refuse s
begin_body s (accepted id len) = elim (recv_node len id) [
  | none ↦ (s, throws ∷ [])
  | some n ↦ async_read_body len (record s { recv_msg_node = some n })
]

-- The handler of a head: what is wrong closes the session, and a good head asks for its body.
unfoldable pub on_head : Session → Bool → ℕ → Outcome
unfolding refuse begin_body parse_head
on_head s ec transferred =
    if ec || s.closed
    then refuse s
    else if ltb transferred head_total_len
    then refuse s
    else begin_body s (parse_head s.read_buffer)

-- `AcceptPacket`: 40 packets a second, and 80 at once. A `double` is rounded; here nothing is.
unfoldable pub accept_packet : Session → ℕ → (Session × List Effect) × Bool
unfolding close
accept_packet s now =
    let budget = min (80 * 10 ^ 9) (s.packet_budget + (now - s.budget_at) * 40) in
    let t = record s { packet_budget = budget; budget_at = now } in
    if ltb budget (10 ^ 9)
    then (close t, false)
    else ((record t { packet_budget = budget - 10 ^ 9 }, []), true)

-- `memcpy` of the body into its node, and the closing zero.
fill : IdNode → List ℕ → ℕ → IdNode
unfolding write_at
fill n buffer transferred = record n {
  node = record n.node {
    bytes = write_at n.total_len (0 ∷ []) (write_at 0 (take transferred buffer) n.bytes);
    cur_len = n.cur_len + transferred;
  };
}

-- A packet within the budget goes to the logic queue, and the next head is read.
deliver : IdNode → Outcome × Bool → Outcome
unfolding async_read_head
deliver n (out, false) = out
deliver n ((s, es), true) = and_then (s, es ++ post_msg n ∷ []) async_read_head

-- The handler of a body.
unfoldable pub on_body : Session → Bool → ℕ → ℕ → ℕ → Outcome
unfolding refuse accept_packet fill deliver
on_body s ec total transferred now =
    if ec || s.closed
    then refuse s
    else if ltb transferred total
    then refuse s
    else elim s.recv_msg_node [
      | none ↦ (s, throws ∷ [])
      | some n ↦
          let filled = fill n s.read_buffer transferred in
          deliver filled (accept_packet (record s { recv_msg_node = some filled }) now)
    ]

-- The handler that a phase stands for.
unfoldable pub on_full : Phase → Session → Bool → ℕ → ℕ → Outcome
unfolding on_head on_body
on_full head s ec transferred now = on_head s ec transferred
on_full (body total) s ec transferred now = on_body s ec total transferred now

-- The completion of `async_read_some` in `asyncReadLen`: `received` came in at `read_len`.
unfoldable pub on_read : Phase → ℕ → ℕ → Session → Bool → List ℕ → ℕ → Outcome
unfolding on_full write_at
on_read phase read_len total s ec received now =
    let t = record s { read_buffer = write_at read_len received s.read_buffer } in
    let now_read = read_len + length received in
    if ec
    then on_full phase t true now_read now
    else if leb total now_read
    then on_full phase t false now_read now
    else (t, read_some phase now_read total ∷ [])

-- `Send`, once on the strand: the queue's bound, and a write only if none is in flight.
unfoldable pub send_on_strand : Session → Text → ℕ → Outcome
unfolding close send_node wire
send_on_strand s msg id =
    let size = length s.send_que in
    if leb max_sendque size then close s else elim (send_node msg (length msg) id) [
      | none ↦ (s, throws ∷ [])
      | some n ↦
          let t = record s { send_que = s.send_que ++ n ∷ [] } in
          if ltb 0 size then (t, []) else (t, async_write (wire n) ∷ [])
    ]

-- `Send`; `on_strand` is `running_in_this_thread()`.
unfoldable pub send : Session → Bool → Text → ℕ → Outcome
unfolding send_on_strand
send s on_strand msg id =
    if s.closed
    then (s, [])
    else if is_empty msg || ltb (short_max - head_total_len) (length msg)
    then close s
    else if on_strand
    then send_on_strand s msg id
    else if leb max_sendque s.scheduled_sends
    then close s
    else (record s { scheduled_sends = s.scheduled_sends + 1 }, dispatch_send msg id ∷ [])

-- The lambda that an off-strand `Send` dispatches.
unfoldable pub run_send : Session → Text → ℕ → Outcome
unfolding send
run_send s msg id = send (record s { scheduled_sends = s.scheduled_sends - 1 }) true msg id

-- The next write after one completed.
next_write : Session → List IdNode → Outcome
unfolding wire
next_write s [] = (record s { send_que = [] }, [])
next_write s (n ∷ rest) = (record s { send_que = n ∷ rest }, async_write (wire n) ∷ [])

drop_front : List IdNode → List IdNode
drop_front [] = []
drop_front (n ∷ rest) = rest

-- `HandleWrite`
unfoldable pub handle_write : Session → Bool → Outcome
unfolding refuse next_write drop_front
handle_write s error =
    if s.closed then (s, []) else if error then refuse s else next_write s (drop_front s.send_que)
