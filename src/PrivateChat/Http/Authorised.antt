-- ===== src/PrivateChat/Http/Authorised.antt =====
-- Whose request reaches the database.
use sakura_chat_server.Prelude.{◌≡◌, Text, ascii, ℤ, pos, is_positive, true, Option, some, ◌++◌}
use sakura_chat_server.Database.Sql.{Env}
use sakura_chat_server.Redis.{Server, World, get}
use sakura_chat_server.Redis.Scripts.{allowed, RateLimitResult, check_rate_limit}
use sakura_chat_server.Status.{token_key}
use sakura_chat_server.PrivateChat.Command.{PrivateParts, private_chat_command}
use sakura_chat_server.PrivateChat.Http.{HttpRequest, HttpReply, HttpState}

module _ {S : Type 0} (server : Server S) (env : Env) (g : PrivateParts)
    (parse : Text → Option HttpRequest) (body : Text) where
  -- The verdicts on a request from an address, in the order in which Redis gives them.
  abbrev pub global_limit : World S → RateLimitResult × World S
  global_limit w = check_rate_limit server (ascii "limit:private:global") (pos 1000) (pos 60) w

  abbrev pub address_limit : Text → World S → RateLimitResult × World S
  address_limit remote w =
      check_rate_limit server (ascii "limit:private:ip:" ++ remote) (pos 300) (pos 60)
        (global_limit w).1

  -- `GET` of the token of a user, in the state that the two limits leave.
  abbrev pub held_token : Text → ℤ → World S → Option Text × World S
  held_token remote uid w = get server (token_key g.to_string uid) (address_limit remote w).1

  abbrev pub user_limit : Text → ℤ → World S → RateLimitResult × World S
  user_limit remote uid w =
      check_rate_limit server (ascii "limit:private:uid:" ++ g.to_string uid) (pos 120) (pos 60)
        (held_token remote uid w).1

  -- The database is left alone; or the command of a user is run whose token has the digest that Redis
  -- held when it was asked, and which is within the limits of all, of its address and of its own.
  pub data Authorised (remote : Text) (s : HttpState S) (out : HttpReply × HttpState S)
      : Type 0 where
    untouched : out.1.conn ≡ s.conn → Authorised remote s out
    run :
        (q : HttpRequest)
        → parse body ≡ some q
        → is_positive q.uid ≡ true
        → (global_limit s.redis).0.state ≡ allowed
        → (address_limit remote s.redis).0.state ≡ allowed
        → (held_token remote q.uid s.redis).0 ≡ some (g.digest q.token)
        → (user_limit remote q.uid s.redis).0.state ≡ allowed
        → out.1.conn ≡ (private_chat_command env g q.uid q.request s.conn).1
        → Authorised remote s out

  module _ (remote : Text) (start : HttpState S) where
    abbrev Fair : HttpReply × HttpState S → Type 0
    Fair = Authorised remote start

    module _ (q : HttpRequest) (p : parse body ≡ some q) (known : is_positive q.uid ≡ true)
        (all : (global_limit start.redis).0.state ≡ allowed)
        (address : (address_limit remote start.redis).0.state ≡ allowed) where
      -- The states of the run from the token on.
      abbrev asked : HttpState S
      asked = record start { redis = (address_limit remote start.redis).1 }

      abbrev answered : HttpState S
      answered = record start { redis = (held_token remote q.uid start.redis).1 }
