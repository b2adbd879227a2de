-- ===== src/Accounts.antt =====
-- Common/src/MysqlDao.cpp: the pool of database connections, and the accounts, friends and friend
-- requests that it reads and writes, with the stored procedures of database/schema.sql that it calls.
pub mod Pool
pub mod Procedures
pub mod Users
pub mod Friends
pub mod Tests
