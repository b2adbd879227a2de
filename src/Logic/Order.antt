-- ===== src/Logic/Order.antt =====
-- In which order the messages are dealt with.
use mathlib.Core.List.{append_assoc}
use sakura_chat_server.Prelude.{
  ◌≤◌, ◌≡◌, refl, sym, ap, ◌∙◌, Bool, true, false, ◌||◌, Option, none, some, List, [], ◌∷◌, ◌++◌,
  length, length-append, leb, if◌then◌else◌, arith,
}
use sakura_chat_server.Logic.{Node, Logic, max_recvque, post_msg_to_que, next_msg}

-- A message is posted, or the worker takes the next; the destructor asks it to stop.
pub data Event : Type 0 where
  posts : Node → Event
  takes : Event
  stops : Event

-- The queue, what was taken into it, and what the worker was given.
pub record World : Type 0 where
  pub logic : Logic
  pub accepted : List Node
  pub dealt : List Node

record_post : World → Node → Bool × Logic → World
record_post w n (true, l) = record w { logic = l; accepted = w.accepted ++ n ∷ [] }
record_post w n (false, l) = record w { logic = l }

record_take : World → Option (Node × Logic) → World
record_take w none = w
record_take w (some (n, l)) = record w { logic = l; dealt = w.dealt ++ n ∷ [] }

pub step : World → Event → World
unfolding record_post record_take
step w (posts n) = record_post w n (post_msg_to_que n w.logic)
step w takes = record_take w (next_msg w.logic)
step w stops = record w { logic = record w.logic { b_stop = true } }

pub run : World → List Event → World
run w [] = w
run w (e ∷ es) = run (step w e) es

pub record Inv (w : World) : Type 0 where
  pub bounded : length w.logic.msg_que ≤ max_recvque
  pub in_order : w.accepted ≡ w.dealt ++ w.logic.msg_que

post-Inv : (w : World) (n : Node) → Inv w → Inv (record_post w n (post_msg_to_que n w.logic))
unfolding record_post post_msg_to_que
post-Inv w n v = go (w.logic.b_stop || leb max_recvque (length w.logic.msg_que)) refl
  where
    go :
        (b : Bool)
        → (w.logic.b_stop || leb max_recvque (length w.logic.msg_que)) ≡ b
        → Inv (
            record_post w n (
              if b
              then (false, w.logic)
              else (true, record w.logic { msg_que = w.logic.msg_que ++ n ∷ [] })))
    go true e = v
    go false e = record {
      bounded = ground (arith, length-append w.logic.msg_que (n ∷ []));
      in_order = ap (λ l. l ++ n ∷ []) v.in_order ∙ append_assoc w.dealt w.logic.msg_que (n ∷ []);
    }

take-Inv :
    (stop : Bool) (q accepted dealt : List Node)
    → let w : World = record {
      logic = record { b_stop = stop; msg_que = q };
      accepted = accepted;
      dealt = dealt;
    } in
      Inv w → Inv (record_take w (next_msg w.logic))
unfolding record_take next_msg
take-Inv stop [] accepted dealt v = v
take-Inv stop (n ∷ rest) accepted dealt v = record {
  bounded = omega (arith, v.bounded);
  in_order = v.in_order ∙ sym (append_assoc dealt (n ∷ []) rest);
}

step-Inv : (w : World) (e : Event) → Inv w → Inv (step w e)
unfolding step
step-Inv w (posts n) v = post-Inv w n v
step-Inv w takes v = take-Inv w.logic.b_stop w.logic.msg_que w.accepted w.dealt v
step-Inv w stops v = record { bounded = v.bounded; in_order = v.in_order }

run-Inv : (w : World) (es : List Event) → Inv w → Inv (run w es)
unfolding run
run-Inv w [] v = v
run-Inv w (e ∷ es) v = run-Inv (step w e) es (step-Inv w e v)

abbrev pub started : World
started = record { logic = record { b_stop = false; msg_que = [] }; accepted = []; dealt = [] }

-- After any posts, rounds of the worker and a stop: at most 10000 messages wait, and the messages
-- that were taken into the queue are those that the worker was given, in their order, and then those
-- that wait. So none is lost, none is dealt with twice, and none overtakes another.
pub run-started-Inv : (es : List Event) → Inv (run started es)
run-started-Inv es = run-Inv started es (record { bounded = omega arith; in_order = refl })
