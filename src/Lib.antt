-- ===== src/Lib.antt =====
-- The servers of SakuraChatServer: a gate (GateServer) that registers users and logs them in, a status
-- server (StatusServer) that chooses a chat server for them, and chat servers (ChatServer) that hold
-- their TCP connections, over a MySQL database and a Redis server that Common/src reads and writes.
--
-- Which file models which part:
--   Prelude.antt and Prelude/ hold what the others share: tests, lists measured by native numbers, byte
--     strings, and the signed integers.
--   Wire.antt is Common/include/ChatWire.h (the identifiers and texts of a request), and Wire/Frame.antt
--     is ChatServer/src/MsgNode.cpp (the buffers and the frame of id, length and body).
--   Session.antt is ChatServer/src/CSession.cpp: one connection of a client. A method is a function to
--     the new state and the calls that it makes; the lambdas that it gives to asio are functions of
--     their own. Session/Sending.antt puts the socket and the strand around it, as a world with events.
--   Database.antt holds the tables, and Database/Sql.antt the connection: a monad of statements that
--     may return, throw a MySQL error, or meet a commit whose outcome is not known; other connections
--     commit in between. Database/Triple.antt has the rules for reasoning about a transaction.
--     Database/Leases.antt what holds after the lease that rolls back what a block left open.
--   Persistence.antt and Persistence/ are Common/src/ChatPersistence.cpp: the view of a stored message,
--     StoredText and StoreTextMessage (Store), PrivacyAllows and PrivacyCommand (Privacy),
--     RecordReceipt and MessageStates (Receipts), DeleteMessage (Deletion), ExpireMessages
--     (Retention), and DeletionEvents and ChatConversations (Paging) and ChatHistory (History), with
--     the size of a printed page as a parameter.
--   Accounts.antt and Accounts/ are Common/src/MysqlDao.cpp: the pool of connections (Pool), accounts
--     (Users), friends and their requests (Friends), with the stored procedures of
--     database/schema.sql (Procedures). Passwords.antt is Common/include/PasswordSecurity.h.
--   Redis.antt and Redis/Scripts.antt are Common/src/RedisMgr.cpp: the pool of connections, every
--     method, and the Lua scripts.
--   Registry.antt is ChatServer/src/UserMgr.cpp and ChatServer/src/CServer.cpp: the maps from users and
--     from ids to sessions.
--   Logic.antt is the queue and the worker of ChatServer/src/LogicSystem.cpp, and Logic/Chat.antt its
--     handler of a text message, which stores it by Persistence/Store.antt. The other handlers are
--     functions to what they did and the state after it, which is Redis, the database connection and the
--     sessions together (Logic/Handlers.antt): LoginHandler (Logic/Login.antt), SearchInfo
--     (Logic/Search.antt), AddFriendApply and ResolveFriendApply with their notifications
--     (Logic/Applies.antt), GetFriendList (Logic/FriendList.antt), and ChatSync, the logout and the
--     privacy commands (Logic/Sync.antt).
--   ChatService.antt is ChatServer/src/ChatServiceImpl.cpp: what another chat server asks this one to
--     tell its users, over the same state as the handlers.
--   Gate.antt is GateServer/src/HttpConnection.cpp: the URL codec, the query parameters, and which
--     response a request gets. Gate/Logic.antt is GateServer/src/LogicSystem.cpp: the handlers of a
--     code, a registration, a new password and a login, over Redis, the accounts and the passwords.
--   PrivateChat.antt is Common/include/PrivateChatWire.h, PrivateChat/Command.antt the command on the
--     tables of database/006_private_chat.sql in Common/src/PrivateChatDao.cpp, and PrivateChat/Http.antt
--     its handler GateServer/src/PrivateChatHttp.cpp, by the limits and the tokens of Redis.
--   Services.antt is Common/src/AsioIOServicePool.cpp: the io services, and the turns they are given in.
--   Status.antt is StatusServer/src/StatusServiceImpl.cpp: the choice of a chat server, and the tokens,
--     which it keeps by the methods of Redis.antt.
-- Files named Tests run the definitions at concrete inputs.
--
-- Conventions: a `short`, an `int` or a `std::uint64_t` is a number whose wrap-around is written out
-- where the source can reach it; an `int` that may be negative is a ℤ; a string is the list of its
-- bytes; the packet budget, a `double`, is counted in 1e-9 packets and the time in nanoseconds, so
-- that nothing is rounded. The retry loop of StoreTextMessage recurs on the three rounds it has; no other
-- definition needs fuel. The statements of a transaction see no other commits: the rows that they
-- work on are taken to be locked, and a conflict shows as an error code of the database, any of which
-- may occur at any call.
--
-- Coarser than the source: a statement outside a transaction that fails is taken to have had no
-- effect, while a commit that fails may have had one; and where a text message goes is asked of given
-- functions in Logic/Chat.antt, so that the session which UserMgr::GetSession closes when its token is
-- stale is closed only in the other handlers and in ChatService.antt.
--
-- Parameters: the faults of the database, what others commit, the collation of the message ids
-- (Database/Sql.antt, `Env`), and the commands of the Redis server (Redis.antt, `Server`), with what GET,
-- SET, DEL, INCR and EXPIRE do to each other as named laws. jsoncpp's reading of a request, the digest of
-- a token, libsodium's hash, MySQL's LOWER and the printing of an int are parameters of the definitions that use them.
--
-- Not modelled: the reading and writing of the gate server, the gRPC clients, the configuration, the
-- thread that expires messages (its pass is ExpireMessages) and the managers that only forward; and
-- jsoncpp, boost, gRPC, MySQL Connector, hiredis and libsodium, which are libraries; the generated
-- message code; logging; the mail service VarifyServer, which is JavaScript.
pub mod Accounts
pub mod ChatService
pub mod Database
pub mod Gate
pub mod Logic
pub mod Passwords
pub mod Persistence
pub mod Prelude
pub mod PrivateChat
pub mod Redis
pub mod Registry
pub mod Services
pub mod Session
pub mod Status
pub mod Wire
