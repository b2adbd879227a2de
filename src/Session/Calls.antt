-- ===== src/Session/Calls.antt =====
-- The calls that a session makes of what is outside it (CSession.cpp).
use sakura_chat_server.Prelude.{ℕ, Text, List}
use sakura_chat_server.Wire.Frame.{IdNode}

-- Which handler `asyncReadFull` was given: that of the head, or that of a body of some length.
pub data Phase : Type 0 where
  head : Phase
  body : ℕ → Phase

pub data Effect : Type 0 where
  -- `async_write` of these bytes, whose completion is `handle_write`
  async_write : List ℕ → Effect
  -- `dispatch` of a `Send` to the strand, with the text and the id
  dispatch_send : Text → ℕ → Effect
  -- `dispatch` of the closing lambda to the strand
  dispatch_close : Effect
  -- `async_wait` for some seconds: the login deadline, and the read deadline of a generation
  arm_login : ℕ → Effect
  arm_read : ℕ → ℕ → Effect
  -- `async_read_some` at an offset, with the length that is wanted in all
  read_some : Phase → ℕ → ℕ → Effect
  -- `PostMsgToQue`
  post_msg : IdNode → Effect
  -- `ClearSession` of the server, by the session's id
  clear_session : Text → Effect
  cancel_timers close_socket : Effect
  -- an exception leaves the method
  throws : Effect
