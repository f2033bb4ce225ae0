-- ===== src/Logic.antt =====
-- logic/rpc.go and logic/publish.go: who is online, sessions, groups. The client library's commands
-- are the parameter `api`, the database's functions (db/curd.go) the parameter `db`, the password
-- hashing of bcrypt the parameter `passwords`; a random token is an argument. A value of the cache
-- stands for the JSON text that the code stores, decoded.
pub mod Data
pub mod Presence
pub mod Counting
pub mod Frames
pub mod Online
pub mod Connecting
pub mod Session
pub mod Tokens
pub mod Returning
pub mod Accepting
pub mod LetterBox
pub mod Registering
pub mod Tests
