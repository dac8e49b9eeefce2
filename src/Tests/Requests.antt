-- ===== src/Tests/Requests.antt =====
-- The theorems on requests, on the databases of the other tests.
use kora_db.Base.{
  ℕ, suc, ◌<◌, ◌⊎◌, true, ◌%◌, ◌^◌, leb, if◌then◌else◌, ◌≤◌, ◌≡◌, ◌↔◌, refl, false, Bytes, text,
  none, some, List, [], ◌∷◌, ok, length, ltb, arith, ◌-◌, ◌+◌, ◌*◌,
}
use kora_db.Base.Int.{ℤ, pos, negsuc}
use kora_db.Query.Filter.{Filter, cmp, and, end, more, eq}
use kora_db.Server.{
  Response, served, code_deadline_exceeded, PbFilter, comparison, and_group, last, then_filter,
  op_eq, to_op, to_filter_with_limits, to_filters_with_limits, to_filter,
}
use kora_db.Server.Limits.{comparisons, IsWithin, to_filter-IsWithin}
use kora_db.Server.Concurrency.{
  InFlight, acquire, admit, refuse, finish, leave, release, Reachable, initial, next, Floats,
  TokenBucket, new_token_bucket, allow_all,
}
use kora_db.Server.Metrics.{MetricKey, Call, begins, ends, new_metrics, call_all}
use kora_db.Server.Metrics.Counts.{count_of, ended, count_of-call_all}
use kora_db.Server.Deadlines.{RequestContext, is_sooner, deadline_interceptor}
use kora_db.Server.Deadlines.Windows.{deadline_interceptor-in_time}
use kora_db.Server.Concurrency.Bounds.{Reachable-bounded, IsFloats, allow_all-bounded}

abbrev name_is : Bytes → PbFilter
name_is s = comparison (text "name") op_eq s

abbrev two_names : PbFilter
two_names = and_group (then_filter (name_is (text "ab")) (then_filter (name_is (text "cd")) last))

abbrev is_named : Bytes → Filter
is_named s = cmp (record { field = text "name"; op = eq; value = s })

abbrev both : Filter
both = and (more (is_named (text "ab")) (more (is_named (text "cd")) end))

both_run : to_filter two_names ≡ ok both
unfolding to_filter to_filter_with_limits to_filters_with_limits to_op
both_run = refl

to_filter-IsWithin_example : (comparisons both ≤ 64) × IsWithin 32 1 both
to_filter-IsWithin_example = to_filter-IsWithin two_names both both_run

-- Two requests are admitted at a capacity of 2, the handler of the first one returns, and a third request
-- is refused as long as the first one has not left.
abbrev state_of : List ℕ → List ℕ → ℕ → InFlight
state_of running returned slots = record { running = running; returned = returned; slots = slots }

acquired : (acquire 2 0 ≡ some 1) × (acquire 2 1 ≡ some 2) × (acquire 2 2 ≡ none)
unfolding acquire
acquired = (refl, refl, refl)

two_admitted : Reachable 2 (state_of (7 ∷ 5 ∷ []) [] 2)
two_admitted =
    next (state_of (5 ∷ []) [] 1) (state_of (7 ∷ 5 ∷ []) [] 2)
      (next (state_of [] [] 0) (state_of (5 ∷ []) [] 1) initial (admit 5 [] [] 0 1 acquired.0))
      (admit 7 (5 ∷ []) [] 1 2 acquired.1)

three_requests : Reachable 2 (state_of (7 ∷ []) (5 ∷ []) 2)
three_requests =
    next (state_of (7 ∷ []) (5 ∷ []) 2) (state_of (7 ∷ []) (5 ∷ []) 2)
      (next (state_of (7 ∷ 5 ∷ []) [] 2) (state_of (7 ∷ []) (5 ∷ []) 2) two_admitted
        (finish 5 (7 ∷ []) [] [] 2))
      (refuse (7 ∷ []) (5 ∷ []) 2 acquired.2)

first_left : Reachable 2 (state_of (7 ∷ []) [] (release 2))
first_left =
    next (state_of (7 ∷ []) (5 ∷ []) 2) (state_of (7 ∷ []) [] (release 2)) three_requests
      (leave 5 (7 ∷ []) [] [] 2)

Reachable-bounded_example :
    (length (state_of (7 ∷ []) (5 ∷ []) 2).running ≤ 2)
    × ((acquire 2 2 ≡ none) ↔ (
        length (state_of (7 ∷ []) (5 ∷ []) 2).running
          + length (state_of (7 ∷ []) (5 ∷ []) 2).returned
        ≡ 2))
Reachable-bounded_example = Reachable-bounded 2 (state_of (7 ∷ []) (5 ∷ []) 2) three_requests

-- Numbers in the place of floats.
abbrev size_of : ℤ → ℕ
size_of (pos n) = n
size_of (negsuc n) = 0

abbrev numbers : Floats
numbers = record {
  Float = ℕ;
  of_int = size_of;
  plus = λ a b. a + b;
  times = λ a b. a * b;
  minus_one = λ a. a - 1;
  less = ltb;
  seconds_between = λ a b. size_of a - size_of b;
}

IsFloats-numbers : IsFloats numbers
IsFloats-numbers = record {
  less_irrefl = λ a. ground arith;
  less-minus_one = λ a b h. ground arith;
}

abbrev drained : TokenBucket numbers
drained =
    allow_all numbers (new_token_bucket numbers (pos 2) (pos 3) (pos 10))
      (pos 10 ∷ pos 11 ∷ pos 14 ∷ [])

allow_all-bounded_example : ltb drained.burst drained.tokens ≡ false
allow_all-bounded_example =
    allow_all-bounded numbers IsFloats-numbers (pos 2) (pos 3) (pos 10)
      (pos 10 ∷ pos 11 ∷ pos 14 ∷ []) drained refl

abbrev served_get : MetricKey
served_get = record { method = text "Get"; code = text "OK" }

abbrev some_calls : List Call
some_calls =
    begins
    ∷ begins
    ∷ ends served_get (pos 5)
    ∷ ends (record { method = text "Get"; code = text "NotFound" }) (pos 6)
    ∷ []

count_of-call_all_example :
    count_of served_get (call_all some_calls new_metrics).outcomes
    ≡ ended served_get some_calls % 2 ^ 64
count_of-call_all_example = count_of-call_all served_get some_calls

-- A context that is canceled at no time, and has its deadline at 50.
abbrev until_50 : RequestContext
until_50 = record {
  deadline = some 50;
  error_at = λ time. if leb 50 time then some code_deadline_exceeded else none;
}

abbrev steady : RequestContext → ℕ → Response ℕ × ℕ
steady ctx n = (served n, suc n)

timely : deadline_interceptor steady 20 until_50 10 25 4 ≡ (served 4, 5)
unfolding deadline_interceptor
timely = refl

deadline_interceptor-in_time_example :
    (0 < 20)
    × (((is_sooner (some 50) (10 + 20) ≡ true) × (until_50.error_at 10 ≡ none))
        ⊎ ((is_sooner (some 50) (10 + 20) ≡ false)
            × (25 < 10 + 20)
            × (until_50.error_at 25 ≡ none)))
deadline_interceptor-in_time_example =
    deadline_interceptor-in_time steady 20 until_50 10 25 4 5 4 timely

-- With a longer window, the sooner deadline of the client is not looked at when the handler returns.
late : deadline_interceptor steady 100 until_50 10 70 4 ≡ (served 4, 5)
unfolding deadline_interceptor
late = refl
