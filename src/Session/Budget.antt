-- ===== src/Session/Budget.antt =====
-- The packet budget of a session (`AcceptPacket`), over the times at which its packets arrive.
use sakura_chat_server.Prelude.{
  ℕ, ◌+◌, ◌*◌, ◌-◌, ◌^◌, ◌≤◌, ◌≡◌, refl, sym, subst, ◌∙◌, inl, inr, Bool-cases, Text, true, List,
  [], ◌∷◌, arith, length, if◌then◌else◌,
}
use sakura_chat_server.Session.{Session, accept_packet, new_session}

-- How many of the packets that arrive at these times are accepted, and the session after them.
pub accept_all : Session → List ℕ → Session × ℕ
accept_all s [] = (s, 0)
accept_all s (t ∷ ts) =
    let (out, ok) = accept_packet s t in
    let (u, n) = accept_all out.0 ts in (u, if ok then n + 1 else n)

-- Times that do not go back from `t` on, and such that are at least 25 ms apart.
abbrev pub Forward : ℕ → List ℕ → Type 0
Forward t [] = Unit
Forward t (u ∷ us) = (t ≤ u) × Forward u us

abbrev pub Spaced : ℕ → List ℕ → Type 0
Spaced t [] = Unit
Spaced t (u ∷ us) = (t + 25 * 10 ^ 6 ≤ u) × Spaced u us

abbrev pub last_time : ℕ → List ℕ → ℕ
last_time t [] = t
last_time t (u ∷ us) = last_time u us

last_time-le : (t : ℕ) (ts : List ℕ) → Forward t ts → t ≤ last_time t ts
last_time-le t [] h = omega arith
last_time-le t (u ∷ us) h = omega (arith, last_time-le u us h.1)

-- What one packet does to the budget.
accept_packet-cost :
    (s : Session) (t : ℕ)
    → s.budget_at ≤ t
    → let r = accept_packet s t in
      (r.0.0.budget_at ≡ t)
      × ((if r.1 then 10 ^ 9 else 0) + r.0.0.packet_budget
          ≤ s.packet_budget + (t - s.budget_at) * 40)
unfolding accept_packet
accept_packet-cost s t h = ground arith

accept_all-cost :
    (s : Session) (t : ℕ) (ts : List ℕ)
    → s.budget_at ≡ t
    → Forward t ts
    → let r = accept_all s ts in
      r.1 * 10 ^ 9 + r.0.packet_budget ≤ s.packet_budget + (last_time t ts - t) * 40
unfolding accept_all
accept_all-cost s t [] e h = omega arith
accept_all-cost s t (u ∷ us) e h =
    let one = accept_packet-cost s u (subst (λ k. k ≤ u) (sym e) h.0) in
    let rest = accept_all-cost (accept_packet s u).0.0 u us one.0 h.1 in
    let later = last_time-le u us h.1 in
    let paid = one.1 in
    elim (Bool-cases (accept_packet s u).1) [
      | inl yes_ ↦ rw yes_ (let p = rw yes_ at paid in omega arith)
      | inr no_ ↦ rw no_ (let p = rw no_ at paid in omega arith)
    ]

-- Over any arrival times that do not go back, the packets that a session accepts are at most what
-- its budget held, and 40 for each second since: counted in 1e-9 packets and nanoseconds.
pub accepted_bound :
    (id : Text) (now : ℕ) (ts : List ℕ)
    → Forward now ts
    → (accept_all (new_session id now) ts).1 * 10 ^ 9 ≤ 80 * 10 ^ 9 + (last_time now ts - now) * 40
unfolding new_session
accepted_bound id now ts h = omega (arith, accept_all-cost (new_session id now) now ts refl h)

accept_packet-Spaced :
    (s : Session) (t : ℕ)
    → s.budget_at + 25 * 10 ^ 6 ≤ t
    → let r = accept_packet s t in (r.1 ≡ true) × (r.0.0.budget_at ≡ t) × (r.0.0.closed ≡ s.closed)
unfolding accept_packet
accept_packet-Spaced s t h = ground arith

accept_all-Spaced :
    (s : Session) (t : ℕ) (ts : List ℕ)
    → s.budget_at ≡ t
    → Spaced t ts
    → let r = accept_all s ts in (r.1 ≡ length ts) × (r.0.closed ≡ s.closed)
unfolding accept_all
accept_all-Spaced s t [] e h = (refl, refl)
accept_all-Spaced s t (u ∷ us) e h =
    let one = accept_packet-Spaced s u (subst (λ k. k + 25 * 10 ^ 6 ≤ u) (sym e) h.0) in
    let rest = accept_all-Spaced (accept_packet s u).0.0 u us one.1 h.1 in
    (rw one.0 (omega (arith, rest.0)), rest.1 ∙ one.2)

-- A client that leaves 25 ms before each packet is never closed for its rate: every packet is
-- accepted, and the session stays as open as it was.
pub paced_accepted :
    (s : Session) (ts : List ℕ)
    → Spaced s.budget_at ts
    → let r = accept_all s ts in (r.1 ≡ length ts) × (r.0.closed ≡ s.closed)
paced_accepted s ts h = accept_all-Spaced s s.budget_at ts refl h
