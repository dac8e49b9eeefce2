-- ===== src/Server/Deadlines.antt =====
-- internal/server/interceptors.go: DeadlineInterceptor. A context is its deadline and, for each time,
-- the error that it has then.
pub mod Windows
use kora_db.Base.{ℕ, ◌+◌, Bool, true, false, not, ◌||◌, Option, none, some, leb, if◌then◌else◌}
use kora_db.Server.{Code, code_internal, code_deadline_exceeded, Response, refused}

-- Times are nanoseconds.
pub record RequestContext : Type 0 where
  pub deadline : Option ℕ
  pub error_at : ℕ → Option Code

-- context.WithTimeout, at a time
abbrev pub with_timeout : RequestContext → ℕ → RequestContext
with_timeout ctx limit = record {
  deadline = some limit;
  error_at = λ time. elim (ctx.error_at time) [
    | some c ↦ some c
    | none ↦ if leb limit time then some code_deadline_exceeded else none
  ];
}

-- `ok && time.Until(deadline) <= maxDuration`
abbrev pub is_sooner : Option ℕ → ℕ → Bool
is_sooner none limit = false
is_sooner (some d) limit = leb d limit

module _ {A : Type 0} {T : Type 0} (handler : RequestContext → T → Response A × T) where
  abbrev pub or_refused : Option Code → Response A × T → Response A × T
  or_refused none r = r
  or_refused (some c) (r, t) = (refused c, t)

  abbrev pub unless_over : Option Code → Response A × T → T → Response A × T
  unless_over none r t = r
  unless_over (some c) r t = (refused c, t)

  -- DeadlineInterceptor: `now` is the time of the call and `done` the time at which the handler returns.
  unfoldable pub deadline_interceptor : ℕ → RequestContext → ℕ → ℕ → T → Response A × T
  deadline_interceptor max_duration ctx now done t =
      if leb max_duration 0
      then (refused code_internal, t)
      else if is_sooner ctx.deadline (now + max_duration)
      then unless_over (ctx.error_at now) (handler ctx t) t
      else or_refused ((with_timeout ctx (now + max_duration)).error_at done)
          (handler (with_timeout ctx (now + max_duration)) t)
