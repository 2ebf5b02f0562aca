-- ===== src/Redis/Tests.antt =====
-- The lock on a server in memory.
use redis_api.Common.{◌≡◌, refl, some, answer}
use redis_api.Text.{codes, ◌===◌}
use redis_api.Redis.Server.{text}
use redis_api.Redis.Scripts.{release_script}
use redis_api.Redis.Memory.{Cells, memory, write, fresh}

abbrev held : Cells
held = write (codes "lock") (text (codes "ours")) (some 300) fresh

-- A late release frees nothing.
late : (release_script memory (codes "lock") (codes "late") held).0 ≡ answer 0
unfolding release_script ◌===◌
late = refl
