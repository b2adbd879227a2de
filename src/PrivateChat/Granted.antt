-- ===== src/PrivateChat/Granted.antt =====
-- What a claim is answered with, and the prekeys after it (Common/src/PrivateChatDao.cpp).
use sakura_chat_server.Prelude.{◌≡◌, Text, ℤ, some}
use sakura_chat_server.Database.{Prekey, Db}
use sakura_chat_server.Database.Sql.{Conn}
use sakura_chat_server.PrivateChat.Command.{PrivateReply}
use sakura_chat_server.PrivateChat.Keys.{Contains}

-- A prekey of the owner that this claim has, with this bundle.
pub record Has (peer actor : ℤ) (request bundle : Text) (db : Db) : Type 0 where
  pub key : Prekey
  pub stored : Contains key db.prekeys
  pub owner : key.owner_uid ≡ peer
  pub claim : key.claim ≡ some (actor, request)
  pub bundle_of : key.bundle ≡ bundle

-- What holds at the end of a claim: an error, or a bundle of a prekey that it has.
abbrev pub Granted : ℤ → ℤ → Text → PrivateReply → Conn → Type 0
Granted peer actor request r c = (b : Text) → r.bundle ≡ some b → Has peer actor request b c.db

abbrev pub Anything : PrivateReply → Conn → Type 0
Anything r c = Unit {0}
