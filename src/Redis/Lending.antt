-- ===== src/Redis/Lending.antt =====
-- The connections of the pool through each method of `RedisMgr`.
use sakura_chat_server.Prelude.{
  Text, ℕ, ◌≡◌, refl, ap, Bool, true, false, Option, none, some, List, [], ◌∷◌, ◌++◌, if◌then◌else◌,
}
use sakura_chat_server.Redis.{
  Reply, string, status, integer, array, error, nil, Server, h_del, h_del_reply, integer_field,
  Link, answered, lost_before, lost_after, Pool, World, get_connection, return_connection,
  with_connection, redis_command, request, sent,
}

-- The pool after a method: the connection that was at the front stands at the back.
abbrev pub rotated : Pool → Pool
rotated p = if p.b_stop then p else elim p.connections [
  | [] ↦ p
  | context ∷ rest ↦ record p { connections = rest ++ context ∷ [] }
]

module _ {S A : Type 0} (failed : A) (f : S → Reply × S) (read : Option Reply → A) where
  sent-pool : (w : World S) (l : Link) → (sent f w l).1.pool ≡ w.pool
  sent-pool w answered = refl
  sent-pool w lost_before = refl
  sent-pool w lost_after = refl

  lent :
      (stop : Bool) (cs : List ℕ) (w : World S)
      → let p : Pool = record { b_stop = stop; connections = cs } in
        (request failed f read (record w { pool = p })).1.pool ≡ rotated p
  unfolding request with_connection get_connection return_connection redis_command
  lent true cs w = refl
  lent false [] w = refl
  lent false (context ∷ rest) w = ap (return_connection context) (sent-pool _ (w.link w.calls))

  -- Whatever becomes of the command of a method: the connection is back in the pool when the method
  -- returns, at the back of the queue; a closed pool and an empty one stay as they are.
  pub request-rotated : (w : World S) → (request failed f read w).1.pool ≡ rotated w.pool
  request-rotated w = lent w.pool.b_stop w.pool.connections w

-- Whatever the server answers to HDEL, and whatever happens on the way, `HDel` returns false.
pub h_del-false :
    {S : Type 0} (server : Server S) (key field : Text) (w : World S)
    → (h_del server key field w).0 ≡ false
unfolding h_del request with_connection get_connection redis_command h_del_reply integer_field
h_del-false server key field w = lent w.pool.b_stop w.pool.connections w
  where
    read_false : (o : Option Reply) → h_del_reply o ≡ false
    read_false none = refl
    read_false (some (string t)) = refl
    read_false (some (status t)) = refl
    read_false (some (integer z)) = refl
    read_false (some (array es)) = refl
    read_false (some error) = refl
    read_false (some nil) = refl

    lent :
        (stop : Bool) (cs : List ℕ) (v : World _)
        → (h_del server key field
            (record v { pool = record { b_stop = stop; connections = cs } })).0
          ≡ false
    lent true cs v = refl
    lent false [] v = refl
    lent false (c ∷ rest) v = read_false _
