-- ===== src/Server/Handlers/Queries.antt =====
-- The bounds of what the handler of Query answers.
use kora_db.Base.{ℕ, zero, suc}
use kora_db.Base.Int.{ℤ, pos, negsuc}
use kora_db.Proto.{Proto}
use kora_db.Query.Filter.{Filter}
use kora_db.Server.Handlers.{default_result_limit}

-- The number of documents that a request of a page size may get.
abbrev pub limit_of : ℤ → ℕ
limit_of (pos zero) = default_result_limit
limit_of (pos (suc n)) = suc n
limit_of (negsuc n) = 0
