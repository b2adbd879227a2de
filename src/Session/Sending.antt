-- ===== src/Session/Sending.antt =====
-- The writes of a session: the socket and the strand around it as a world, and what holds of the
-- queue, of the write in flight and of the dispatched sends after any history of events.
use mathlib.Core.List.{append-nil}
use sakura_chat_server.Prelude.{
  ℕ, suc, ◌+◌, ◌≤◌, ◌≡◌, refl, Text, Bool, true, false, List, [], ◌∷◌, ◌++◌, map, arith, length,
  take, length-append, ltb, if◌then◌else◌, ◌<◌, ◌-◌, leb, is_empty, ◌||◌, Option, none, some,
}
use sakura_chat_server.Wire.Frame.{IdNode, wire, send_node, short_max, head_total_len}
use sakura_chat_server.Session.Calls.{Phase, async_write, dispatch_send, throws}
use sakura_chat_server.Session.Quiet.{
  writes, dispatched, Quiet, close-Quiet, on_read-Quiet, start-Quiet, login_deadline_fired-Quiet,
  read_deadline_fired-Quiet,
}
use sakura_chat_server.Session.{
  Session, Outcome, max_sendque, new_session, refuse, close, run_close, read_deadline_fired,
  login_deadline_fired, start, on_read, send_on_strand, send, run_send, next_write, drop_front,
  handle_write,
}

-- A session, the frames that the socket is writing, and the sends that wait for the strand.
pub record World : Type 0 where
  pub session : Session
  pub in_flight : List (List ℕ)
  pub pending : List (Text × ℕ)

-- What the calls of a method leave behind.
absorb : World → Outcome → World
absorb w (s, es) = record {
  session = s;
  in_flight = w.in_flight ++ writes es;
  pending = w.pending ++ dispatched es;
}

pub data Event : Type 0 where
  -- a thread calls `Send`, on the strand or off it
  sends : Bool → Text → ℕ → Event
  -- the strand runs the oldest dispatched `Send`
  strand : Event
  -- the oldest write completes, with an error or without
  written : Bool → Event
  -- a read completes, with its phase, offset, wanted length, error, bytes and time
  reads : Phase → ℕ → ℕ → Bool → List ℕ → ℕ → Event
  starts closes closing : Event
  login_timer : Bool → Event
  read_timer : Bool → ℕ → Event

run_strand : World → List (Text × ℕ) → World
unfolding absorb
run_strand w [] = w
run_strand w ((msg, id) ∷ rest) = absorb (record w { pending = rest }) (run_send w.session msg id)

complete_write : World → Bool → List (List ℕ) → World
unfolding absorb
complete_write w error [] = w
complete_write w error (bytes ∷ rest) =
    absorb (record w { in_flight = rest }) (handle_write w.session error)

pub step : World → Event → World
unfolding absorb run_strand complete_write
step w (sends on_strand msg id) = absorb w (send w.session on_strand msg id)
step w strand = run_strand w w.pending
step w (written error) = complete_write w error w.in_flight
step w (reads phase read_len total ec received now) =
    absorb w (on_read phase read_len total w.session ec received now)
step w starts = absorb w (start w.session)
step w closes = absorb w (close w.session)
step w closing = absorb w (run_close w.session)
step w (login_timer ec) = absorb w (login_deadline_fired w.session ec)
step w (read_timer ec generation) = absorb w (read_deadline_fired w.session ec generation)

pub run : World → List Event → World
run w [] = w
run w (e ∷ es) = run (step w e) es

-- While the session is open, the socket writes exactly the frame at the front of the queue.
pub record Inv (w : World) : Type 0 where
  pub queue_bound : length w.session.send_que ≤ max_sendque
  pub one_write : length w.in_flight ≤ 1
  pub front : w.session.closed ≡ false → w.in_flight ≡ map wire (take 1 w.session.send_que)
  pub counted : w.session.scheduled_sends ≡ length w.pending
  pub pending_bound : length w.pending ≤ max_sendque

absorb-Inv : (w : World) (out : Outcome) → Quiet w.session out → Inv w → Inv (absorb w out)
unfolding absorb
absorb-Inv w (s, es) q v = ground (arith, append-nil w.in_flight, append-nil w.pending)

run_close-Quiet : (s : Session) → Quiet s (run_close s)
unfolding run_close
run_close-Quiet s = ground arith

-- A frame that joins the queue of an open session: it is written at once if the queue was empty.
joined-Inv :
    (w : World) (n : IdNode) (q : List IdNode)
    → w.session.send_que ≡ q
    → w.session.closed ≡ false
    → length q < max_sendque
    → Inv w
    → let t = record w.session { send_que = q ++ n ∷ [] } in
      Inv (absorb w (if ltb 0 (length q) then (t, []) else (t, async_write (wire n) ∷ [])))
unfolding absorb
joined-Inv w n [] e open_ room v = ground (arith, append-nil w.pending, v.front open_)
joined-Inv w n (m ∷ r) e open_ room v =
    ground
      (arith, append-nil w.pending, append-nil w.in_flight, length-append r (n ∷ []), v.front open_)

Inv-if :
    (w : World) (b : Bool) (m n : Outcome)
    → (b ≡ true → Inv (absorb w m))
    → (b ≡ false → Inv (absorb w n))
    → Inv (absorb w (if b then m else n))
Inv-if w true m n h k = h refl
Inv-if w false m n h k = k refl

idle-Quiet : (s : Session) → Quiet s (s, [])
idle-Quiet s = ground arith

framed-Inv :
    (w : World) (o : Option IdNode)
    → w.session.closed ≡ false
    → length w.session.send_que < max_sendque
    → Inv w
    → Inv (
        absorb w (elim o [
          | none ↦ (w.session, throws ∷ [])
          | some n ↦
              let t = record w.session { send_que = w.session.send_que ++ n ∷ [] } in
              if ltb 0 (length w.session.send_que) then (t, []) else (t, async_write (wire n) ∷ [])
        ]))
framed-Inv w none open_ room v = absorb-Inv w _ (ground arith) v
framed-Inv w (some n) open_ room v = joined-Inv w n w.session.send_que refl open_ room v

send_on_strand-Inv :
    (w : World) (msg : Text) (id : ℕ)
    → w.session.closed ≡ false
    → Inv w
    → Inv (absorb w (send_on_strand w.session msg id))
unfolding send_on_strand
send_on_strand-Inv w msg id open_ v =
    Inv-if w (leb max_sendque (length w.session.send_que)) _ _
      (λ _. absorb-Inv w (close w.session) (close-Quiet w.session) v)
      (λ room. framed-Inv w (send_node msg (length msg) id) open_ (ground arith) v)

-- A `Send` off the strand is counted while it waits.
dispatch-Inv :
    (w : World) (msg : Text) (id : ℕ)
    → w.session.scheduled_sends < max_sendque
    → Inv w
    → let t = record w.session { scheduled_sends = w.session.scheduled_sends + 1 } in
      Inv (absorb w (t, dispatch_send msg id ∷ []))
unfolding absorb
dispatch-Inv w msg id room v =
    ground (arith, append-nil w.in_flight, length-append w.pending ((msg, id) ∷ []))

send-Inv :
    (w : World) (on_strand : Bool) (msg : Text) (id : ℕ)
    → Inv w
    → Inv (absorb w (send w.session on_strand msg id))
unfolding send
send-Inv w on_strand msg id v =
    let quit = absorb-Inv w (close w.session) (close-Quiet w.session) v in
    Inv-if w w.session.closed _ _ (λ _. absorb-Inv w _ (idle-Quiet w.session) v)
      λ open_.
        Inv-if w (is_empty msg || ltb (short_max - head_total_len) (length msg)) _ _ (λ _. quit)
          λ _.
            Inv-if w on_strand _ _ (λ _. send_on_strand-Inv w msg id open_ v)
              λ _.
                Inv-if w (leb max_sendque w.session.scheduled_sends) _ _ (λ _. quit)
                  λ room. dispatch-Inv w msg id (ground arith) v

strand-Inv : (w : World) (p : List (Text × ℕ)) → w.pending ≡ p → Inv w → Inv (run_strand w p)
unfolding run_strand run_send
strand-Inv w [] e v = v
strand-Inv w ((msg, id) ∷ rest) e v =
    let t = record w.session { scheduled_sends = w.session.scheduled_sends - 1 } in
    send-Inv (record w { session = t; pending = rest }) true msg id (ground arith)

-- A completed write of an open session takes the front off the queue and starts the next.
next_write-Inv :
    (w : World) (q : List IdNode)
    → w.session.send_que ≡ q
    → w.in_flight ≡ []
    → w.session.closed ≡ false
    → length q ≤ suc max_sendque
    → w.session.scheduled_sends ≡ length w.pending
    → length w.pending ≤ max_sendque
    → Inv (absorb w (next_write w.session (drop_front q)))
unfolding absorb next_write drop_front
next_write-Inv w [] e idle open_ bound c p = ground (arith, append-nil w.pending)
next_write-Inv w (m ∷ []) e idle open_ bound c p = ground (arith, append-nil w.pending)
next_write-Inv w (m ∷ n ∷ r) e idle open_ bound c p = ground (arith, append-nil w.pending)

nil_of_one : (x : List ℕ) (l : List (List ℕ)) → length (x ∷ l) ≤ 1 → l ≡ []
nil_of_one x [] h = refl
nil_of_one x (y ∷ l) h = absurd (omega arith)

-- In a closed session nothing is said of the write in flight.
record Rest (w : World) : Type 0 where
  queue : length w.session.send_que ≤ max_sendque
  counts : w.session.scheduled_sends ≡ length w.pending
  waits : length w.pending ≤ max_sendque

closed-Inv :
    (w : World)
    → w.session.closed ≡ true
    → w.in_flight ≡ []
    → Rest w
    → Inv (absorb w (w.session, []))
unfolding absorb
closed-Inv w shut idle r = ground (arith, append-nil w.pending)

refused-Inv :
    (w : World)
    → w.session.closed ≡ false
    → w.in_flight ≡ []
    → Rest w
    → Inv (absorb w (refuse w.session))
unfolding absorb refuse
refused-Inv w open_ idle r = ground (arith, append-nil w.pending)

written-Inv :
    (w : World) (error : Bool) (f : List (List ℕ))
    → w.in_flight ≡ f
    → Inv w
    → Inv (complete_write w error f)
unfolding complete_write handle_write
written-Inv w error [] e v = v
written-Inv w error (bytes ∷ rest) e v =
    let u = record w { in_flight = rest } in
    let r : Rest u = record {
      queue = v.queue_bound;
      counts = v.counted;
      waits = v.pending_bound;
    } in
    let done : rest ≡ [] = nil_of_one bytes rest (ground arith) in
    Inv-if u w.session.closed _ _ (λ shut. closed-Inv u shut done r)
      λ open_.
        Inv-if u error _ _ (λ _. refused-Inv u open_ done r)
          (λ _.
            next_write-Inv u w.session.send_que refl done open_ (ground arith) v.counted
              v.pending_bound)

-- Every event keeps the invariant.
step-Inv : (w : World) (e : Event) → Inv w → Inv (step w e)
unfolding step
step-Inv w (sends on_strand msg id) v = send-Inv w on_strand msg id v
step-Inv w strand v = strand-Inv w w.pending refl v
step-Inv w (written error) v = written-Inv w error w.in_flight refl v
step-Inv w (reads phase read_len total ec received now) v =
    absorb-Inv w _ (on_read-Quiet w.session phase read_len total ec received now) v
step-Inv w starts v = absorb-Inv w _ (start-Quiet w.session) v
step-Inv w closes v = absorb-Inv w _ (close-Quiet w.session) v
step-Inv w closing v = absorb-Inv w _ (run_close-Quiet w.session) v
step-Inv w (login_timer ec) v = absorb-Inv w _ (login_deadline_fired-Quiet w.session ec) v
step-Inv w (read_timer ec generation) v =
    absorb-Inv w _ (read_deadline_fired-Quiet w.session ec generation) v

run-Inv : (w : World) (es : List Event) → Inv w → Inv (run w es)
unfolding run
run-Inv w [] v = v
run-Inv w (e ∷ es) v = run-Inv (step w e) es (step-Inv w e v)

-- A session that was just accepted.
pub fresh : Text → ℕ → World
unfolding new_session
fresh id now = record { session = new_session id now; in_flight = []; pending = [] }

fresh-Inv : (id : Text) (now : ℕ) → Inv (fresh id now)
unfolding fresh
fresh-Inv id now = ground arith

-- After any history of events of a new session: the queue and the dispatched sends hold at most
-- 1000 entries, the counter of the latter is their number, at most one write is in flight, and
-- while the session is open the write in flight is that of the frame at the front of the queue,
-- and there is none exactly when the queue is empty.
pub run-fresh-Inv : (id : Text) (now : ℕ) (es : List Event) → Inv (run (fresh id now) es)
run-fresh-Inv id now es = run-Inv _ es (fresh-Inv id now)
