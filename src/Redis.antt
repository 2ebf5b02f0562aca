-- ===== src/Redis.antt =====
-- The Redis server that both HTTP replicas share, as src/redis/redis.service.ts uses it. The server
-- is no code of the repository, so it is a parameter: a record of the commands in use with their
-- documented behaviour, in the child `Server`. The Lua scripts are code of the repository, and are
-- translated over those commands in `Scripts`.
pub mod Server
pub mod Scripts
pub mod Memory
pub mod Inventory
pub mod Lock
mod Tests
