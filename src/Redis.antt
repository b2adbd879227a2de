-- ===== src/Redis.antt =====
-- Common/src/RedisMgr.cpp: the pool of connections, and the commands with what the source makes of
-- each reply. The Redis server is not code of the repository: its commands are a parameter.
pub mod Scripts
pub mod Lending
pub mod Codes
pub mod Limits
pub mod Tests
use sakura_chat_server.Prelude.{
  ℕ, ◌+◌, Text, ascii, text_eq, ℤ, pos, negsuc, is_positive, int_eq, int_le, int_min, int_max, Bool,
  true, false, not, ◌&&◌, ◌||◌, Option, none, some, List, [], ◌∷◌, ◌++◌, length, if◌then◌else◌,
  ◌==◌, replicate,
}

-- An element of an array, as far as the source looks at it.
pub data Element : Type 0 where
  number : ℤ → Element
  another : Element

-- `redisReply`: a string may lack its text.
pub data Reply : Type 0 where
  string : Option Text → Reply
  status : Option Text → Reply
  integer : ℤ → Reply
  array : List Element → Reply
  error nil : Reply

-- The commands of a server with the states `S`: any command, by its words, and those that the
-- scripts call. `incr` fails where the value is no number.
pub record Server (S : Type 0) : Type 0 where
  pub command : List Text → S → Reply × S
  pub get : Text → S → Option Text
  pub incr : Text → S → Option (ℕ × S)
  pub expire : Text → ℤ → S → S
  pub ttl : Text → S → ℤ
  pub del : Text → S → ℕ × S

-- What becomes of a command on its way: it is answered, or there is no reply, and the server
-- has run it or not.
pub data Link : Type 0 where
  answered lost_before lost_after : Link

-- `RedisConPool`, whose connections are numbers
pub record Pool : Type 0 where
  pub b_stop : Bool
  pub connections : List ℕ

pub record World (S : Type 0) : Type 0 where
  pub pool : Pool
  pub server : S
  pub link : ℕ → Link
  pub calls : ℕ

-- The constructor: a connection that does not connect or authenticate is left out.
unfoldable pub new_pool : List (Option ℕ) → Pool
new_pool [] = record { b_stop = false; connections = [] }
new_pool (none ∷ rest) = new_pool rest
new_pool (some context ∷ rest) =
    let p = new_pool rest in record p { connections = context ∷ p.connections }

-- What `getConnection` finds at the end of its wait.
unfoldable pub get_connection : Pool → Option (ℕ × Pool)
get_connection p = if p.b_stop then none else elim p.connections [
  | [] ↦ none
  | context ∷ rest ↦ some (context, record p { connections = rest })
]

unfoldable pub return_connection : ℕ → Pool → Pool
return_connection context p =
    if p.b_stop then p else record p { connections = p.connections ++ context ∷ [] }

unfoldable pub close_pool : Pool → Pool
close_pool p = record p { b_stop = true }

module _ {S : Type 0} where
  -- A method: with a connection, which is given back when it returns.
  unfoldable pub with_connection :
      {A : Type 0} → A → (World S → A × World S) → World S → A × World S
  unfolding get_connection return_connection
  with_connection failed f w = elim (get_connection w.pool) [
    | none ↦ (failed, w)
    | some (context, p) ↦
        let (a, w') = f (record w { pool = p }) in
        (a, record w' { pool = return_connection context w'.pool })
  ]

  abbrev pub sent : (S → Reply × S) → World S → Link → Option Reply × World S
  sent f w answered =
      let (r, s) = f w.server in (some r, record w { server = s; calls = w.calls + 1 })
  sent f w lost_before = (none, record w { calls = w.calls + 1 })
  sent f w lost_after =
      let (r, s) = f w.server in (none, record w { server = s; calls = w.calls + 1 })

  -- `redisCommand`; no reply is NULL.
  unfoldable pub redis_command : (S → Reply × S) → World S → Option Reply × World S
  redis_command f w = sent f w (w.link w.calls)

  -- A method that sends one command and makes something of the reply.
  unfoldable pub request :
      {A : Type 0} → A → (S → Reply × S) → (Option Reply → A) → World S → A × World S
  unfolding with_connection redis_command
  request failed f read =
      with_connection failed λ w. let (r, w') = redis_command f w in (read r, w')

-- The string of a reply, which `Get`, `LPop` and `RPop` put into their argument.
unfoldable pub string_reply : Option Reply → Option Text
string_reply none = none
string_reply (some (string t)) = t
string_reply (some r) = none

unfoldable pub ok_reply : Option Reply → Bool
ok_reply none = false
ok_reply (some (status none)) = false
ok_reply (some (status (some t))) = text_eq t (ascii "OK")
ok_reply (some r) = false

-- `reply->type == REDIS_REPLY_INTEGER && reply->integer > 0`
unfoldable pub positive_reply : Option Reply → Bool
positive_reply none = false
positive_reply (some (integer z)) = is_positive z
positive_reply (some r) = false

unfoldable pub integer_reply : Option Reply → Bool
integer_reply none = false
integer_reply (some (integer z)) = true
integer_reply (some r) = false

unfoldable pub one_reply : Option Reply → Bool
one_reply none = false
one_reply (some (integer z)) = int_eq z (pos 1)
one_reply (some r) = false

unfoldable pub nonzero_reply : Option Reply → Bool
nonzero_reply none = false
nonzero_reply (some (integer z)) = not (int_eq z (pos 0))
nonzero_reply (some r) = false

-- `reply->integer`, which is 0 in a reply of another type
unfoldable pub integer_field : Reply → ℤ
integer_field (integer z) = z
integer_field r = pos 0

-- `HDel`: `success` is set when the type is not INTEGER.
unfoldable pub h_del_reply : Option Reply → Bool
unfolding integer_field
h_del_reply none = false
h_del_reply (some (integer z)) = false
h_del_reply (some r) = is_positive (integer_field r)

unfoldable pub text_or_empty : Option Text → Text
text_or_empty none = []
text_or_empty (some t) = t

module _ {S : Type 0} (server : Server S) where
  unfoldable pub get : Text → World S → Option Text × World S
  unfolding request string_reply
  get key = request none (server.command (ascii "GET" ∷ key ∷ [])) string_reply

  unfoldable pub set : Text → Text → World S → Bool × World S
  unfolding request ok_reply
  set key value = request false (server.command (ascii "SET" ∷ key ∷ value ∷ [])) ok_reply

  unfoldable pub set_ex : Text → Text → ℤ → (ℤ → Text) → World S → Bool × World S
  unfolding request ok_reply
  set_ex key value seconds to_string w =
      if not (is_positive seconds)
      then (false, w)
      else request false
          (server.command (ascii "SET" ∷ key ∷ value ∷ ascii "EX" ∷ to_string seconds ∷ []))
          ok_reply w

  unfoldable pub auth : Text → World S → Bool × World S
  unfolding request ok_reply
  auth password = request false (server.command (ascii "AUTH" ∷ password ∷ [])) ok_reply

  unfoldable pub l_push : Text → Text → World S → Bool × World S
  unfolding request positive_reply
  l_push key value =
      request false (server.command (ascii "LPush" ∷ key ∷ value ∷ [])) positive_reply

  unfoldable pub l_pop : Text → World S → Option Text × World S
  unfolding request string_reply
  l_pop key = request none (server.command (ascii "LPop" ∷ key ∷ [])) string_reply

  unfoldable pub r_push : Text → Text → World S → Bool × World S
  unfolding request positive_reply
  r_push key value =
      request false (server.command (ascii "RPUSH" ∷ key ∷ value ∷ [])) positive_reply

  unfoldable pub r_pop : Text → World S → Option Text × World S
  unfolding request string_reply
  r_pop key = request none (server.command (ascii "RPOP" ∷ key ∷ [])) string_reply

  unfoldable pub h_set : Text → Text → Text → World S → Bool × World S
  unfolding request integer_reply
  h_set key hkey value =
      request false (server.command (ascii "HSET" ∷ key ∷ hkey ∷ value ∷ [])) integer_reply

  unfoldable pub h_del : Text → Text → World S → Bool × World S
  unfolding request h_del_reply
  h_del key field = request false (server.command (ascii "HDEL" ∷ key ∷ field ∷ [])) h_del_reply

  unfoldable pub h_get : Text → Text → World S → Text × World S
  unfolding request string_reply text_or_empty
  h_get key hkey =
      request [] (server.command (ascii "HGET" ∷ key ∷ hkey ∷ []))
        (λ r. text_or_empty (string_reply r))

  unfoldable pub del : Text → World S → Bool × World S
  unfolding request integer_reply
  del key = request false (server.command (ascii "DEL" ∷ key ∷ [])) integer_reply

  unfoldable pub exists_key : Text → World S → Bool × World S
  unfolding request nonzero_reply
  exists_key key = request false (server.command (ascii "exists" ∷ key ∷ [])) nonzero_reply
