-- ===== src/Server.antt =====
-- internal/server/server.go and keys.go: how requests become filters, roles and status codes.
pub mod Limits
pub mod Handlers
pub mod Metrics
pub mod Deadlines
pub mod Access
pub mod Concurrency
use kora_db.Base.{
  ℕ, zero, suc, true, false, Bool, Bytes, Error, Result, ok, err, reject, ◌>>=◌, ◌>>◌, ltb,
  invalid_role, last_admin, not_found, collection_not_found, document_not_found, collection_exists,
  duplicate_key, result_limit, invalid_page_token, canceled, deadline_exceeded, syntax,
  out_of_range,
}
use kora_db.Base.Int.{ℤ, pos}
use kora_db.Query.Filter.{
  Op, eq, ne, gt, gte, lt, lte, Filter, Filters, nil, cmp, and, or, end, more,
}
use kora_db.Auth.{role_read_only, role_read_write, role_admin}

-- pb.Op
pub data PbOp : Type 0 where
  op_unspecified op_eq op_ne op_gt op_gte op_lt op_lte : PbOp

-- pb.Filter: a nil pointer, a node without its message, a comparison, and the two groups.
mutual
  pub data PbFilter : Type 0 where
    no_filter : PbFilter
    no_node : PbFilter
    comparison : Bytes → PbOp → Bytes → PbFilter
    and_group : PbFilters → PbFilter
    or_group : PbFilters → PbFilter

  pub data PbFilters : Type 0 where
    last : PbFilters
    then_filter : PbFilter → PbFilters → PbFilters

-- The errors of the conversion carry a text alone; `syntax` stands for them, and `out_of_range` for the
-- two limits.
unfoldable pub to_op : PbOp → Result Op
to_op op_eq = ok eq
to_op op_ne = ok ne
to_op op_gt = ok gt
to_op op_gte = ok gte
to_op op_lt = ok lt
to_op op_lte = ok lte
to_op op_unspecified = err syntax

abbrev pub max_filter_depth : ℕ
max_filter_depth = 32

abbrev pub max_filter_predicates : ℕ
max_filter_predicates = 64

abbrev is_last : PbFilters → Bool
is_last last = true
is_last (then_filter f fs) = false

-- A comparison takes one of the budget.
abbrev spend : ℕ → Result ℕ
spend zero = err out_of_range
spend (suc budget) = ok budget

-- toFilterWithLimits and toFiltersWithLimits; the budget that is left comes with the result.
unfoldable mutual
  pub to_filter_with_limits : PbFilter → ℕ → ℕ → Result (Filter × ℕ)
  to_filter_with_limits no_filter depth budget = ok (nil, budget)
  to_filter_with_limits no_node depth budget = do
    reject (ltb max_filter_depth depth) out_of_range
    err syntax
  to_filter_with_limits (comparison field op value) depth budget = do
    reject (ltb max_filter_depth depth) out_of_range
    left ← spend budget
    o ← to_op op
    ok (cmp (record { field = field; op = o; value = value }), left)
  to_filter_with_limits (and_group fs) depth budget = do
    reject (ltb max_filter_depth depth) out_of_range
    reject (is_last fs) syntax
    (subs, left) ← to_filters_with_limits fs (suc depth) budget
    ok (and subs, left)
  to_filter_with_limits (or_group fs) depth budget = do
    reject (ltb max_filter_depth depth) out_of_range
    reject (is_last fs) syntax
    (subs, left) ← to_filters_with_limits fs (suc depth) budget
    ok (or subs, left)

  pub to_filters_with_limits : PbFilters → ℕ → ℕ → Result (Filters × ℕ)
  to_filters_with_limits last depth budget = ok (end, budget)
  to_filters_with_limits (then_filter no_filter fs) depth budget = err syntax
  to_filters_with_limits (then_filter f fs) depth budget = do
    (sub, left) ← to_filter_with_limits f depth budget
    (subs, rest) ← to_filters_with_limits fs depth left
    ok (more sub subs, rest)

-- toFilter
unfoldable pub to_filter : PbFilter → Result Filter
to_filter f = do (filter, left) ← to_filter_with_limits f 1 max_filter_predicates; ok filter

-- The status codes that the server answers with.
pub data Code : Type 0 where
  code_not_found code_already_exists code_resource_exhausted code_invalid_argument : Code
  code_canceled code_deadline_exceeded code_failed_precondition code_internal : Code
  code_unauthenticated code_permission_denied : Code

-- What a handler, or an interceptor around it, answers.
pub data Response {ℓ} (A : Type ℓ) : Type ℓ where
  served : A → Response A
  refused : Code → Response A

-- toStatus
unfoldable pub to_status : Error → Code
to_status not_found = code_not_found
to_status (collection_not_found c) = code_not_found
to_status (document_not_found c id) = code_not_found
to_status collection_exists = code_already_exists
to_status (duplicate_key c id) = code_already_exists
to_status (result_limit n) = code_resource_exhausted
to_status invalid_page_token = code_invalid_argument
to_status canceled = code_canceled
to_status deadline_exceeded = code_deadline_exceeded
to_status _ = code_invalid_argument

-- The code of an error of RevokeKey.
unfoldable pub revoke_status : Error → Code
revoke_status last_admin = code_failed_precondition
revoke_status _ = code_internal

-- pb.Role
pub data PbRole : Type 0 where
  role_unspecified role_readonly role_readwrite role_administrator : PbRole

-- toPBRole
unfoldable pub to_pb_role : ℤ → PbRole
to_pb_role (pos (suc zero)) = role_readonly
to_pb_role (pos (suc (suc zero))) = role_readwrite
to_pb_role (pos (suc (suc (suc zero)))) = role_administrator
to_pb_role _ = role_unspecified

-- fromPBRole
unfoldable pub from_pb_role : PbRole → Result ℤ
from_pb_role role_readonly = ok role_read_only
from_pb_role role_readwrite = ok role_read_write
from_pb_role role_administrator = ok role_admin
from_pb_role role_unspecified = err invalid_role
