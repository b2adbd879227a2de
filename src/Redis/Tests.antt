-- ===== src/Redis/Tests.antt =====
-- A server that keeps numbers and texts under keys, and runs of the methods on it.
use sakura_chat_server.Prelude.{
  ℕ, ◌+◌, ◌≡◌, refl, Text, ascii, text_eq, text_eq_self, pos, true, false, Option, none, some, [],
  ◌∷◌, ◌++◌, if◌then◌else◌, ap,
}
use sakura_chat_server.Redis.{nil, Server, World}
use sakura_chat_server.Redis.Scripts.{consume_code, check_rate_limit, limited}
use sakura_chat_server.Redis.Codes.{Deletes, Consumed, consume_code-Consumed, consume_code-once}
use sakura_chat_server.Redis.Limits.{Counters, ready, after_requests, check_rate_limit-counts}

-- Values and counters under keys.
pub record Store : Type 0 where
  pub texts : Text → Option Text
  pub counts : Text → ℕ

abbrev pub put {ℓ} : {A : Type ℓ} → Text → A → (Text → A) → Text → A
put key a f k = if text_eq k key then a else f k

abbrev pub memory : Server Store
memory = record {
  command = λ words s. (nil, s);
  get = λ key s. s.texts key;
  incr =
      λ key s. some (s.counts key + 1, record s { counts = put key (s.counts key + 1) s.counts });
  expire = λ key seconds s. s;
  ttl = λ key s. pos 60;
  del = λ key s. (1, record s { texts = put key none s.texts });
}

memory-Deletes : Deletes memory
memory-Deletes = record {
  get_del = λ key s. ap (λ b. if b then none else s.texts key) (text_eq_self key);
}

abbrev memory-Counters : Counters memory
memory-Counters = record {
  count = λ key s. s.counts key;
  bumped = λ key s. record s { counts = put key (s.counts key + 1) s.counts };
  incr_some = λ key s. refl;
  count_bumped = λ key s. ap (λ b. if b then s.counts key + 1 else s.counts key) (text_eq_self key);
  count_expire = λ key seconds s h. refl;
}

-- One code is stored, and nothing was counted yet.
abbrev with_code : Store
with_code = record {
  texts = λ k. if text_eq k (ascii "code_a") then some (ascii "123456") else none;
  counts = λ k. 0;
}

abbrev world : World Store
world = ready 1 (2 ∷ []) with_code 0

accepted_code : (consume_code memory (ascii "code_a") (ascii "123456") world).0 ≡ true
unfolding consume_code ascii text_eq
accepted_code = refl

consume_code-Consumed_example :
    Consumed memory memory-Deletes
      (ascii "code_a")
      (ascii "code_a" ++ ascii ":attempts")
      (ascii "123456")
      with_code
      (consume_code memory (ascii "code_a") (ascii "123456") world).1.server
consume_code-Consumed_example =
    consume_code-Consumed memory memory-Deletes (ascii "code_a") (ascii "123456") world
      accepted_code

consume_code-once_example :
    (consume_code memory
      (ascii "code_a")
      (ascii "123456")
      (consume_code memory (ascii "code_a") (ascii "123456") world).1).0
    ≡ false
consume_code-once_example =
    consume_code-once memory memory-Deletes (ascii "code_a") (ascii "123456") (ascii "123456") world
      accepted_code

check_rate_limit-counts_example :
    (check_rate_limit memory
      (ascii "ip")
      (pos 3)
      (pos 60)
      (after_requests memory (ascii "ip") (pos 3) (pos 60) 3 world)).0.state
    ≡ limited
check_rate_limit-counts_example =
    check_rate_limit-counts memory memory-Counters (ascii "ip") (pos 3) (pos 60) refl refl 3 1
      (2 ∷ []) with_code 0
