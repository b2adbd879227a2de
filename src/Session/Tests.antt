-- ===== src/Session/Tests.antt =====
-- A session at concrete inputs.
use sakura_chat_server.Prelude.{
  ◌+◌, ◌*◌, ◌-◌, ◌^◌, ◌≤◌, ◌≡◌, ascii, true, false, [], ◌∷◌, arith, some,
}
use sakura_chat_server.Session.{Session, new_session, zeroed}
use sakura_chat_server.Session.Sending.{
  sends, strand, written, closes, Inv, run, fresh, run-fresh-Inv,
}
use sakura_chat_server.Session.Budget.{accept_all, accepted_bound, paced_accepted}
use sakura_chat_server.Session.Reading.{fresh_body}

run-fresh-Inv_example : Inv (
    run (fresh (ascii "s") 0) (
      sends false (ascii "{}") 1006
      ∷ sends true (ascii "[]") 1006
      ∷ strand
      ∷ written false
      ∷ closes
      ∷ []))
run-fresh-Inv_example = run-fresh-Inv (ascii "s") 0 (
    sends false (ascii "{}") 1006
    ∷ sends true (ascii "[]") 1006
    ∷ strand
    ∷ written false
    ∷ closes
    ∷ [])

accepted_bound_example :
    (accept_all (new_session (ascii "s") 0) (5 ∷ 5 ∷ 1000000 ∷ [])).1 * 10 ^ 9
    ≤ 80 * 10 ^ 9 + (1000000 - 0) * 40
accepted_bound_example =
    accepted_bound (ascii "s") 0 (5 ∷ 5 ∷ 1000000 ∷ [])
      (omega arith, (omega arith, (omega arith, tt)))

paced_accepted_example :
    let s = new_session (ascii "s") 0 in
    let r = accept_all s (25000000 ∷ 50000000 ∷ []) in (r.1 ≡ 2) × (r.0.closed ≡ s.closed)
unfolding new_session
paced_accepted_example =
    paced_accepted (new_session (ascii "s") 0) (25000000 ∷ 50000000 ∷ [])
      (omega arith, (omega arith, tt))

-- A session whose buffer was cleared for a head.
abbrev reading : Session
reading = record (new_session (ascii "s") 0) { read_buffer = zeroed }

abbrev awaiting : Session
awaiting = record reading { recv_msg_node = some (fresh_body 2 1006) }
