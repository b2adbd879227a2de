-- ===== src/Redis/Scripts.antt =====
-- Common/src/RedisMgr.cpp: the methods that run a Lua script, `ConsumeCode`, `CheckRateLimit`,
-- `AllowRequest` and `DeleteIfEqual`, and their scripts on the commands of the server.
use sakura_chat_server.Prelude.{
  ℕ, Text, ascii, text_eq, ℤ, pos, is_positive, is_negative, int_le, int_min, int_max, Bool, true,
  false, not, ◌||◌, Option, none, some, [], ◌∷◌, ◌++◌, length, if◌then◌else◌, ◌==◌, ltb,
}
use sakura_chat_server.Redis.{
  Reply, integer, array, error, number, Server, World, request, one_reply,
}

-- `RateLimitResult`
pub data LimitState : Type 0 where
  allowed limited unavailable : LimitState

pub record RateLimitResult : Type 0 where
  pub state : LimitState
  pub retry_after : ℤ

abbrev pub is_allowed : LimitState → Bool
is_allowed allowed = true
is_allowed s = false

module _ {S : Type 0} (server : Server S) where
  -- What the script of `ConsumeCode` does once the code is there and the attempt is counted.
  unfoldable pub try_code : Text → Text → Text → ℕ → S → Reply × S
  try_code key code value attempt s =
      if ltb 5 attempt
      then (integer (pos 0), (server.del key s).1)
      else if not (text_eq value code)
      then (integer (pos 0), s)
      else (integer (pos 1), (server.del key s).1)

  unfoldable pub counted_code : Text → Text → Text → Text → S → Option (ℕ × S) → Reply × S
  unfolding try_code
  counted_code key attempts code value s none = (error, s)
  counted_code key attempts code value s (some (n, counted)) =
      try_code key code value n
        (if n == 1 then server.expire attempts (pos 180) counted else counted)

  unfoldable pub found_code : Text → Text → Text → S → Option Text → Reply × S
  unfolding counted_code
  found_code key attempts code s none = (integer (pos 0), s)
  found_code key attempts code s (some value) =
      counted_code key attempts code value s (server.incr attempts s)

  -- The script of `ConsumeCode`.
  unfoldable pub code_script : Text → Text → Text → S → Reply × S
  unfolding found_code
  code_script key attempts code s = found_code key attempts code s (server.get key s)

  unfoldable pub consume_code : Text → Text → World S → Bool × World S
  unfolding code_script request one_reply
  consume_code key code w =
      if not (length code == 6)
      then (false, w)
      else request false (code_script key (key ++ ascii ":attempts") code) one_reply w

  -- The script of `CheckRateLimit`, once the request is counted.
  unfoldable pub counted_limit : Text → ℤ → S → Option (ℕ × S) → Reply × S
  counted_limit key seconds s none = (error, s)
  counted_limit key seconds s (some (n, counted)) =
      let t = server.ttl key counted in
      if is_negative t
      then (array (number (pos n) ∷ number seconds ∷ []), server.expire key seconds counted)
      else (array (number (pos n) ∷ number t ∷ []), counted)

  unfoldable pub limit_script : Text → ℤ → S → Reply × S
  unfolding counted_limit
  limit_script key seconds s = counted_limit key seconds s (server.incr key s)

  abbrev pub no_result : RateLimitResult
  no_result = record { state = unavailable; retry_after = pos 0 }

  -- What is made of the reply: `{n, t}`, and nothing of any other.
  unfoldable pub limit_reply : ℤ → ℤ → Option Reply → RateLimitResult
  limit_reply limit seconds (some (array (number n ∷ number t ∷ []))) = record {
    state = if int_le n limit then allowed else limited;
    retry_after = int_max (pos 1) (int_min seconds t);
  }
  limit_reply limit seconds r = no_result

  unfoldable pub check_rate_limit : Text → ℤ → ℤ → World S → RateLimitResult × World S
  unfolding limit_script limit_reply request
  check_rate_limit key limit seconds w =
      if not (is_positive limit) || not (is_positive seconds)
      then (no_result, w)
      else request no_result (limit_script key seconds) (limit_reply limit seconds) w

  unfoldable pub allow_request : Text → ℤ → ℤ → World S → Bool × World S
  unfolding check_rate_limit
  allow_request key limit seconds w =
      let (r, w') = check_rate_limit key limit seconds w in (is_allowed r.state, w')

  unfoldable pub delete_script : Text → Text → S → Reply × S
  delete_script key value s = elim (server.get key s) [
    | none ↦ (integer (pos 0), s)
    | some v ↦
        if text_eq v value
        then (let (n, s') = server.del key s in (integer (pos n), s'))
        else (integer (pos 0), s)
  ]

  unfoldable pub delete_if_equal : Text → Text → World S → Bool × World S
  unfolding delete_script request one_reply
  delete_if_equal key value = request false (delete_script key value) one_reply
