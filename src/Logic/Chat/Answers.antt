-- ===== src/Logic/Chat/Answers.antt =====
-- What a text message is answered, and what is told to others (`LogicSystem::DealChatTextMsg`).
use sakura_chat_server.Prelude.{◌≡◌, some, List, [], ◌∷◌, All}
use sakura_chat_server.Persistence.{Row}
use sakura_chat_server.Logic.Chat.{Response, Effect, replies, sends, forwards}

-- A notification to one session or one server, of this message.
abbrev pub Tells : Row → Effect → Type 0
Tells m (replies r) = ⊥
Tells m (sends s n) = n ≡ m
Tells m (forwards server to n) = n ≡ m

-- One answer, and then only notifications of the message that was answered: none after an error.
pub data Answered : List Effect → Type 0 where
  refused : (r : Response) → Answered (replies r ∷ [])
  told :
      (r : Response) (m : Row) (rest : List Effect)
      → r.error ≡ 0
      → r.message ≡ some (record m { content = [] })
      → All (Tells m) rest
      → Answered (replies r ∷ rest)
