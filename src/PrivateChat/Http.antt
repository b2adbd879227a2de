-- ===== src/PrivateChat/Http.antt =====
-- GateServer/src/PrivateChatHttp.cpp: a request of the private chat at the gate, with its limits and its
-- token. An exception comes from nowhere in the model.
pub mod Authorised
use sakura_chat_server.Prelude.{
  ℕ, ◌*◌, Text, ascii, text_eq, ℤ, pos, int_max, is_positive, Bool, true, false, not, ◌&&◌, ◌||◌,
  Option, none, some, List, [], ◌∷◌, ◌++◌, length, is_empty, ltb, ◌==◌, if◌then◌else◌,
}
use sakura_chat_server.Wire.{uuid}
use sakura_chat_server.Database.Sql.{Env, Conn}
use sakura_chat_server.Redis.{Server, World, get}
use sakura_chat_server.Redis.Scripts.{
  LimitState, allowed, limited, unavailable, RateLimitResult, check_rate_limit,
}
use sakura_chat_server.Status.{token_key}
use sakura_chat_server.PrivateChat.{PrivateRequest}
use sakura_chat_server.PrivateChat.Command.{
  PrivateReply, private_error, PrivateParts, private_chat_command,
}

-- An object with an int `uid` and a string `token`, and the request that is left without the two.
pub record HttpRequest : Type 0 where
  pub uid : ℤ
  pub token : Text
  pub request : PrivateRequest

pub record HttpReply : Type 0 where
  pub reply : PrivateReply
  pub request_id : Option Text
  pub retry_after : Option ℤ

pub record HttpState (S : Type 0) : Type 0 where
  pub redis : World S
  pub conn : Conn

abbrev pub refused : Option Text → ℕ → HttpReply
refused id code = record { reply = private_error code; request_id = id; retry_after = none }

-- The identifier that is repeated: any UUID in a refusal, and any text of its length in a reply.
unfoldable pub shown_id : Option Text → Option Text
unfolding uuid
shown_id none = none
shown_id (some t) = if uuid t then some t else none

abbrev pub replied_id : Option Text → Option Text
replied_id none = none
replied_id (some t) = if length t == 36 then some t else none

-- What a decision against a request is answered with.
unfoldable pub limit_answer : Option Text → RateLimitResult → HttpReply
limit_answer id r = elim r.state [
  | allowed ↦ refused id 1001
  | limited ↦ record (refused id 1204) { retry_after = some (int_max (pos 1) r.retry_after) }
  | unavailable ↦ record (refused id 1207) { retry_after = some (pos 5) }
]

abbrev pub is_claim : Option Text → Bool
is_claim none = false
is_claim (some t) = text_eq t (ascii "claim")

module _ {S : Type 0} (server : Server S) (env : Env) (g : PrivateParts) where
  open g use {digest, to_string}

  abbrev pub Step : Type 0
  Step = HttpState S → HttpReply × HttpState S

  -- `allowed`, and what follows if it is.
  unfoldable pub within_limit : Option Text → Text → ℤ → Step → Step
  unfolding check_rate_limit limit_answer
  within_limit id key limit next s =
      let (r, w) = check_rate_limit server key limit (pos 60) s.redis in
      elim r.state [
        | allowed ↦ next (record s { redis = w })
        | limited ↦ (limit_answer id r, record s { redis = w })
        | unavailable ↦ (limit_answer id r, record s { redis = w })
      ]

  unfoldable pub run_command : HttpRequest → Step
  unfolding private_chat_command
  run_command q s =
      let (r, c) = private_chat_command env g q.uid q.request s.conn in
      (
        record { reply = r; request_id = replied_id q.request.request_id; retry_after = none },
        record s { conn = c },
      )

  unfoldable pub after_token : Option Text → HttpRequest → Step
  unfolding within_limit run_command
  after_token id q = within_limit id (ascii "limit:private:uid:" ++ to_string q.uid) (pos 120) (
      if is_claim q.request.op
      then within_limit id (ascii "limit:private:claim:" ++ to_string q.uid) (pos 10)
          (run_command q)
      else run_command q)

  abbrev pub token_fits : Option Text → Text → Bool
  token_fits none d = false
  token_fits (some t) d = text_eq t d

  unfoldable pub check_token : Option Text → HttpRequest → Step
  unfolding get after_token
  check_token id q s =
      let (expected, w) = get server (token_key to_string q.uid) s.redis in
      let s1 : HttpState S = record s { redis = w } in
      if not (token_fits expected (digest q.token))
      then (refused id 1010, s1)
      else after_token id q s1

  unfoldable pub handle_request : Text → Option HttpRequest → Step
  unfolding shown_id within_limit check_token
  handle_request remote none s = (refused none 1001, s)
  handle_request remote (some q) s =
      if not (is_positive q.uid) || not (length q.token == 64)
      then (refused none 1001, s)
      else let id = shown_id q.request.request_id in
        if is_empty remote
        then (refused id 1001, s)
        else within_limit id (ascii "limit:private:global") (pos 1000)
            (within_limit id (ascii "limit:private:ip:" ++ remote) (pos 300) (check_token id q)) s

  -- `Handle`, with jsoncpp's reading of the body and the address of the client
  unfoldable pub handle : (Text → Option HttpRequest) → Text → Text → Step
  unfolding handle_request
  handle parse remote body s =
      if ltb (96 * 1024) (length body)
      then (refused none 1001, s)
      else handle_request remote (parse body) s
