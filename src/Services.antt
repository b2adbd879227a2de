-- ===== src/Services.antt =====
-- Common/src/AsioIOServicePool.cpp: the io services, one thread each, that connections are handed to in
-- turn. A service is named by its index.
pub mod Tests
use native.Mathlib.Nat.{suc-mod, mod-eq_of_lt, mod_self, mod-lt}
use sakura_chat_server.Prelude.{
  ℕ, zero, suc, ◌+◌, ◌%◌, ◌≤◌, ◌<◌, max, ◌≡◌, refl, sym, ap, ◌∙◌, Bool, true, false, List, [], ◌∷◌,
  map, length, replicate, ◌==◌, if◌then◌else◌, arith,
}

-- An io service: whether its work guard is there, and whether its thread runs.
pub record Service : Type 0 where
  pub guarded : Bool
  pub running : Bool

pub record ServicePool : Type 0 where
  pub io_services : List Service
  pub next_io_service : ℕ
  pub stopped : Bool

-- The constructor
unfoldable pub new_pool : ℕ → ServicePool
new_pool size = record {
  io_services = replicate (max size 1) (record { guarded = true; running = true });
  next_io_service = 0;
  stopped = false;
}

-- `GetIOService`
unfoldable pub get_io_service : ServicePool → ℕ × ServicePool
get_io_service p = (
  p.next_io_service,
  record p {
    next_io_service =
        if p.next_io_service + 1 == length p.io_services then 0 else p.next_io_service + 1;
  },
)

-- `Stop`, of which only the first call does anything.
unfoldable pub stop_pool : ServicePool → ServicePool
stop_pool p = if p.stopped then p else record p {
  io_services = map (λ s. record { guarded = false; running = false }) p.io_services;
  stopped = true;
}

-- The pool after some calls of `GetIOService`.
unfoldable pub after_calls : ℕ → ServicePool → ServicePool
unfolding get_io_service
after_calls zero p = p
after_calls (suc n) p = (get_io_service (after_calls n p)).1

length-replicate : {A : Type 0} (n : ℕ) (a : A) → length (replicate n a) ≡ n
length-replicate zero a = refl
length-replicate (suc n) a = omega (arith, length-replicate n a)

after_calls-services : (n : ℕ) (p : ServicePool) → (after_calls n p).io_services ≡ p.io_services
unfolding after_calls get_io_service
after_calls-services zero p = refl
after_calls-services (suc n) p = after_calls-services n p

wrap : (i k : ℕ) → i < k → (if i + 1 == k then 0 else i + 1) ≡ suc i % k
wrap i k h = go (i + 1 == k) refl
  where
    go : (b : Bool) → (i + 1 == k) ≡ b → (if b then 0 else i + 1) ≡ suc i % k
    go true e = let same : suc i ≡ k = ground arith in sym (ap (λ x. x % k) same ∙ mod_self k)
    go false e =
        let less : suc i < k = ground arith in
        let one : i + 1 ≡ suc i = omega arith in one ∙ sym (mod-eq_of_lt less)

next-mod :
    (n k : ℕ) (p : ServicePool)
    → 0 < k
    → length p.io_services ≡ k
    → p.next_io_service ≡ 0
    → (after_calls n p).next_io_service ≡ n % k
unfolding after_calls get_io_service
next-mod zero k p h l e = e ∙ sym (mod-eq_of_lt h)
next-mod (suc n) k p h l e =
    let ih = next-mod n k p h l e in
    rw (after_calls-services n p, l, ih) (wrap (n % k) k (mod-lt n h) ∙ sym (suc-mod n k))

-- The calls of `GetIOService` on a new pool give the services in turn: the call after `n` others
-- gives the one at `n` modulo their number, which is the size asked for, or 1 for none.
pub get_io_service-turn :
    (size n : ℕ) → (get_io_service (after_calls n (new_pool size))).0 ≡ n % max size 1
unfolding get_io_service new_pool
get_io_service-turn size n =
    next-mod n (max size 1) (new_pool size) (omega arith) (length-replicate (max size 1) _) refl
