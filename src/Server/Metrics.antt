-- ===== src/Server/Metrics.antt =====
-- internal/server/metrics.go: the counters of the requests. `serveHTTP`, which prints them, is not here.
pub mod Counts
use kora_db.Base.{
  ℕ, zero, suc, ◌+◌, ◌%◌, ◌^◌, Bytes, Bool, ◌&&◌, List, [], ◌∷◌, bytes_equal, if◌then◌else◌,
}
use kora_db.Base.Int.{ℤ, pos, negsuc}

pub record MetricKey : Type 0 where
  pub method : Bytes
  pub code : Bytes

pub record MetricValue : Type 0 where
  pub count : ℕ
  pub duration_nanos : ℕ

pub record Metrics : Type 0 where
  pub in_flight : ℤ
  pub outcomes : List (MetricKey × MetricValue)

-- Equality of two keys of the map.
abbrev pub same_key : MetricKey → MetricKey → Bool
same_key j k = bytes_equal j.method k.method && bytes_equal j.code k.code

-- inFlight.Add(1) and inFlight.Add(-1)
abbrev pub add_one : ℤ → ℤ
add_one (pos n) = pos (suc n)
add_one (negsuc zero) = pos 0
add_one (negsuc (suc n)) = negsuc n

abbrev pub subtract_one : ℤ → ℤ
subtract_one (pos zero) = negsuc 0
subtract_one (pos (suc n)) = pos n
subtract_one (negsuc n) = negsuc (suc n)

-- `if duration > 0 { value.durationNanos += uint64(duration) }`
abbrev pub positive_part : ℤ → ℕ
positive_part (pos n) = n
positive_part (negsuc n) = 0

abbrev pub counted : ℤ → MetricValue → MetricValue
counted duration v = record {
  count = (v.count + 1) % 2 ^ 64;
  duration_nanos = (v.duration_nanos + positive_part duration) % 2 ^ 64;
}

-- The update of the map in `record`.
unfoldable pub count_outcome :
    MetricKey → ℤ → List (MetricKey × MetricValue) → List (MetricKey × MetricValue)
count_outcome k duration [] = (k, counted duration (record { count = 0; duration_nanos = 0 })) ∷ []
count_outcome k duration ((j, v) ∷ m) =
    let rest = count_outcome k duration m in
    if same_key j k then (j, counted duration v) ∷ m else (j, v) ∷ rest

-- NewMetrics
abbrev pub new_metrics : Metrics
new_metrics = record { in_flight = pos 0; outcomes = [] }

-- begin, of a collector that is there
unfoldable pub begin_request : Metrics → Metrics
begin_request m = record m { in_flight = add_one m.in_flight }

-- record, of a collector that is there
unfoldable pub record_outcome : MetricKey → ℤ → Metrics → Metrics
record_outcome k duration m = record {
  in_flight = subtract_one m.in_flight;
  outcomes = count_outcome k duration m.outcomes;
}

-- The calls that the interceptors of the requests make, in any order.
pub data Call : Type 0 where
  begins : Call
  ends : MetricKey → ℤ → Call

abbrev pub call : Call → Metrics → Metrics
call begins m = begin_request m
call (ends k duration) m = record_outcome k duration m

unfoldable pub call_all : List Call → Metrics → Metrics
call_all [] m = m
call_all (c ∷ cs) m = call_all cs (call c m)
