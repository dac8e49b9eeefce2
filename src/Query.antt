-- ===== src/Query.antt =====
-- internal/query/query.go. `Filter` has the filters, their evaluation and their signature; `Page`
-- has the execution of a query and its page tokens.
pub mod Filter
pub mod Page
