-- ===== src/Session/Quiet.antt =====
-- The operations of a session that leave its sending side alone.
use sakura_chat_server.Prelude.{
  ℕ, ◌+◌, ◌≡◌, refl, sym, ◌∙◌, Text, Bool, true, false, some, none, Option, List, [], ◌∷◌, arith,
  length, leb, if◌then◌else◌,
}
use sakura_chat_server.Wire.Frame.{
  IdNode, Head, bad_id, bad_len, accepted, recv_node, parse_head, write_at,
}
use sakura_chat_server.Session.Calls.{
  Phase, head, body, Effect, async_write, dispatch_send, read_some, throws,
}
use sakura_chat_server.Session.{
  Session, Outcome, close, start, read_deadline_fired, login_deadline_fired, refuse,
  async_read_head, async_read_body, begin_body, on_head, accept_packet, deliver, fill, on_body,
  on_full, on_read,
}

abbrev pub writes : List Effect → List (List ℕ)
writes [] = []
writes (async_write bytes ∷ es) = bytes ∷ writes es
writes (_ ∷ es) = writes es

abbrev pub dispatched : List Effect → List (Text × ℕ)
dispatched [] = []
dispatched (dispatch_send msg id ∷ es) = (msg, id) ∷ dispatched es
dispatched (_ ∷ es) = dispatched es

-- A method that leaves the sending side alone.
pub record Quiet (s : Session) (out : Outcome) : Type 0 where
  pub que : out.0.send_que ≡ s.send_que
  pub scheduled : out.0.scheduled_sends ≡ s.scheduled_sends
  pub stays : out.0.closed ≡ false → s.closed ≡ false
  pub no_write : writes out.1 ≡ []
  pub no_dispatch : dispatched out.1 ≡ []

pub close-Quiet : (s : Session) → Quiet s (close s)
unfolding close
close-Quiet s = ground arith

pub refuse-Quiet : (s : Session) → Quiet s (refuse s)
unfolding refuse close
refuse-Quiet s = ground arith

pub async_read_head-Quiet : (s : Session) → Quiet s (async_read_head s)
unfolding async_read_head close
async_read_head-Quiet s = ground arith

async_read_body-Quiet : (n : ℕ) (s : Session) → Quiet s (async_read_body n s)
unfolding async_read_body close
async_read_body-Quiet n s = ground arith

Quiet-if :
    (s : Session) (b : Bool) (m n : Outcome) → Quiet s m → Quiet s n → Quiet s (if b then m else n)
Quiet-if s true m n h k = h
Quiet-if s false m n h k = k

-- From a state with the same sending side.
Quiet-via :
    (s t : Session) (out : Outcome)
    → t.send_que ≡ s.send_que
    → t.scheduled_sends ≡ s.scheduled_sends
    → t.closed ≡ s.closed
    → Quiet t out
    → Quiet s out
Quiet-via s t out a b c q = record {
  que = q.que ∙ a;
  scheduled = q.scheduled ∙ b;
  stays = λ e. sym c ∙ q.stays e;
  no_write = q.no_write;
  no_dispatch = q.no_dispatch;
}

body_node-Quiet :
    (s : Session) (len : ℕ) (o : Option IdNode)
    → Quiet s (elim o [
      | none ↦ (s, throws ∷ [])
      | some n ↦ async_read_body len (record s { recv_msg_node = some n })
    ])
body_node-Quiet s len none = ground arith
body_node-Quiet s len (some n) =
    let t = record s { recv_msg_node = some n } in
    Quiet-via s t _ refl refl refl (async_read_body-Quiet len t)

begin_body-Quiet : (s : Session) (h : Head) → Quiet s (begin_body s h)
unfolding begin_body
begin_body-Quiet s bad_id = refuse-Quiet s
begin_body-Quiet s bad_len = refuse-Quiet s
begin_body-Quiet s (accepted id len) = body_node-Quiet s len (recv_node len id)

on_head-Quiet : (s : Session) (ec : Bool) (n : ℕ) → Quiet s (on_head s ec n)
unfolding on_head
on_head-Quiet s ec n =
    Quiet-if s _ _ _ (refuse-Quiet s)
      (Quiet-if s _ _ _ (refuse-Quiet s) (begin_body-Quiet s (parse_head s.read_buffer)))

-- A packet over the budget closes the session, and any other is posted.
deliver-Quiet : (s : Session) (n : IdNode) (now : ℕ) → Quiet s (deliver n (accept_packet s now))
unfolding deliver accept_packet
deliver-Quiet s n now = ground arith

filled-Quiet :
    (s : Session) (transferred now : ℕ) (o : Option IdNode)
    → Quiet s (elim o [
      | none ↦ (s, throws ∷ [])
      | some n ↦
          let filled = fill n s.read_buffer transferred in
          deliver filled (accept_packet (record s { recv_msg_node = some filled }) now)
    ])
filled-Quiet s transferred now none = ground arith
filled-Quiet s transferred now (some n) =
    let f = fill n s.read_buffer transferred in
    let t = record s { recv_msg_node = some f } in
    Quiet-via s t _ refl refl refl (deliver-Quiet t f now)

on_body-Quiet :
    (s : Session) (ec : Bool) (total transferred now : ℕ)
    → Quiet s (on_body s ec total transferred now)
unfolding on_body
on_body-Quiet s ec total transferred now =
    Quiet-if s _ _ _ (refuse-Quiet s)
      (Quiet-if s _ _ _ (refuse-Quiet s) (filled-Quiet s transferred now s.recv_msg_node))

on_full-Quiet :
    (s : Session) (phase : Phase) (ec : Bool) (transferred now : ℕ)
    → Quiet s (on_full phase s ec transferred now)
unfolding on_full
on_full-Quiet s head ec transferred now = on_head-Quiet s ec transferred
on_full-Quiet s (body total) ec transferred now = on_body-Quiet s ec total transferred now

-- No read event touches the sending side, but that it may close the session.
pub on_read-Quiet :
    (s : Session) (phase : Phase) (read_len total : ℕ) (ec : Bool) (received : List ℕ) (now : ℕ)
    → Quiet s (on_read phase read_len total s ec received now)
unfolding on_read
on_read-Quiet s phase read_len total ec received now =
    let t = record s { read_buffer = write_at read_len received s.read_buffer } in
    let n = read_len + length received in
    let more : Quiet s (t, read_some phase n total ∷ []) = ground arith in
    Quiet-if s ec _ _ (Quiet-via s t _ refl refl refl (on_full-Quiet t phase true n now)) (
      Quiet-if s (leb total n) _ _
        (Quiet-via s t _ refl refl refl (on_full-Quiet t phase false n now)) more)

pub start-Quiet : (s : Session) → Quiet s (start s)
unfolding start
start-Quiet s = ground arith

pub login_deadline_fired-Quiet : (s : Session) (ec : Bool) → Quiet s (login_deadline_fired s ec)
unfolding login_deadline_fired
login_deadline_fired-Quiet s ec = ground arith

pub read_deadline_fired-Quiet :
    (s : Session) (ec : Bool) (generation : ℕ) → Quiet s (read_deadline_fired s ec generation)
unfolding read_deadline_fired
read_deadline_fired-Quiet s ec generation = ground arith
