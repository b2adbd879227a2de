-- ===== src/Redis/Codes.antt =====
-- What an accepted verification code tells (`RedisMgr::ConsumeCode`).
use sakura_chat_server.Prelude.{
  ℕ, ◌≤◌, ◌≡◌, refl, sym, ap, ◌∙◌, subst, Text, ascii, text_eq, text_eq_iff, pos, Bool, true, false,
  not, Option, none, some, none-ne-some, Bool-cases, inl, inr, List, [], ◌∷◌, ◌++◌, length,
  if◌then◌else◌, ◌==◌, ltb, arith,
}
use sakura_chat_server.Redis.{
  Reply, integer, Server, Link, answered, lost_before, lost_after, World, get_connection,
  with_connection, redis_command, request, sent, one_reply,
}
use sakura_chat_server.Redis.Scripts.{try_code, counted_code, found_code, code_script, consume_code}

-- What GET and DEL do to each other in the server.
pub record Deletes {S : Type 0} (server : Server S) : Type 0 where
  pub get_del : (key : Text) (s : S) → server.get key (server.del key s).1 ≡ none

-- A request that succeeds was run by the server, and answered.
record Answered {S : Type 0} (f : S → Reply × S) (s t : S) : Type 0 where
  accepts : one_reply (some (f s).0) ≡ true
  after : t ≡ (f s).1

request-Answered :
    {S : Type 0} (f : S → Reply × S) (w : World S)
    → (request false f one_reply w).0 ≡ true
    → Answered f w.server (request false f one_reply w).1.server
unfolding request with_connection get_connection redis_command one_reply
request-Answered {S} f w h = lent w.pool.b_stop w.pool.connections w h
  where
    linked :
        (l : Link) (v : World S)
        → one_reply (sent f v l).0 ≡ true
        → Answered f v.server (sent f v l).1.server
    linked answered v e = record { accepts = e; after = refl }
    linked lost_before v e = absurd (ground arith)
    linked lost_after v e = absurd (ground arith)

    lent :
        (stop : Bool) (cs : List ℕ) (v : World S)
        → let u : World S = record v { pool = record { b_stop = stop; connections = cs } } in
          (request false f one_reply u).0 ≡ true
          → Answered f v.server (request false f one_reply u).1.server
    lent true cs v e = absurd (ground arith)
    lent false [] v e = absurd (ground arith)
    lent false (c ∷ rest) v e =
        linked (v.link v.calls) (record v { pool = record { b_stop = false; connections = rest } })
          e

module _ {S : Type 0} (server : Server S) (laws : Deletes server) where
  -- The code `code` was there, was tried at most five times, and is gone.
  pub record Consumed (key attempts code : Text) (s t : S) : Type 0 where
    pub counted : S
    pub tries : ℕ
    pub there : server.get key s ≡ some code
    pub count : server.incr attempts s ≡ some (tries, counted)
    pub few : tries ≤ 5
    pub gone : server.get key t ≡ none

  try_code-one :
      (key attempts code value : Text) (n : ℕ) (s counted u : S)
      → server.get key s ≡ some value
      → server.incr attempts s ≡ some (n, counted)
      → one_reply (some (try_code server key code value n u).0) ≡ true
      → Consumed key attempts code s (try_code server key code value n u).1
  unfolding try_code one_reply
  try_code-one key attempts code value n s counted u g c h =
      go (ltb 5 n) (text_eq value code) refl refl h
    where
      go :
          (a b : Bool)
          → ltb 5 n ≡ a
          → text_eq value code ≡ b
          → let out : Reply × S =
              if a
              then (integer (pos 0), (server.del key u).1)
              else if not b
              then (integer (pos 0), u)
              else (integer (pos 1), (server.del key u).1) in
            one_reply (some out.0) ≡ true → Consumed key attempts code s out.1
      go true b e f h = absurd (ground arith)
      go false false e f h = absurd (ground arith)
      go false true e f h = record {
        counted = counted;
        tries = n;
        there = g ∙ ap (λ v. some v) ((text_eq_iff value code).0 f);
        count = c;
        few = ground arith;
        gone = laws.get_del key u;
      }

  code_script-one :
      (key attempts code : Text) (s : S)
      → one_reply (some (code_script server key attempts code s).0) ≡ true
      → Consumed key attempts code s (code_script server key attempts code s).1
  unfolding code_script found_code counted_code one_reply
  code_script-one key attempts code s h = found (server.get key s) refl h
    where
      counts :
          (value : Text) (o : Option (ℕ × S))
          → server.get key s ≡ some value
          → server.incr attempts s ≡ o
          → one_reply (some (counted_code server key attempts code value s o).0) ≡ true
          → Consumed key attempts code s (counted_code server key attempts code value s o).1
      counts value none g c h = absurd (ground arith)
      counts value (some (n, counted)) g c h =
          try_code-one key attempts code value n s counted _ g c h

      found :
          (o : Option Text)
          → server.get key s ≡ o
          → one_reply (some (found_code server key attempts code s o).0) ≡ true
          → Consumed key attempts code s (found_code server key attempts code s o).1
      found none g h = absurd (ground arith)
      found (some value) g h = counts value (server.incr attempts s) g refl h

  -- A code that `ConsumeCode` accepts is the one that was stored, it was tried at most five times,
  -- counting this one, and it is gone afterwards.
  pub consume_code-Consumed :
      (key code : Text) (w : World S)
      → (consume_code server key code w).0 ≡ true
      → Consumed key
          (key ++ ascii ":attempts")
          code
          w.server
          (consume_code server key code w).1.server
  unfolding consume_code
  consume_code-Consumed key code w h = go (length code == 6) h
    where
      script : S → Reply × S
      script = code_script server key (key ++ ascii ":attempts") code

      go :
          (b : Bool)
          → let out : Bool × World S =
              if not b then (false, w) else request false script one_reply w in
            out.0 ≡ true → Consumed key (key ++ ascii ":attempts") code w.server out.1.server
      go false e = absurd (ground arith)
      go true e =
          let r = request-Answered script w e in
          subst (Consumed key (key ++ ascii ":attempts") code w.server) (sym r.after)
            (code_script-one key (key ++ ascii ":attempts") code w.server r.accepts)

  -- An accepted code is accepted once: whatever code is tried next is refused.
  pub consume_code-once :
      (key code next : Text) (w : World S)
      → (consume_code server key code w).0 ≡ true
      → (consume_code server key next (consume_code server key code w).1).0 ≡ false
  consume_code-once key code next w h =
      elim (Bool-cases (consume_code server key next (consume_code server key code w).1).0) [
        | inl twice ↦
            absurd
              (none-ne-some next (sym first_gone ∙ (consume_code-Consumed key next _ twice).there))
        | inr refused ↦ refused
      ]
    where
      first_gone : server.get key (consume_code server key code w).1.server ≡ none
      first_gone = (consume_code-Consumed key code w h).gone
