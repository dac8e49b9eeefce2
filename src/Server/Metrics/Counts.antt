-- ===== src/Server/Metrics/Counts.antt =====
-- The counters count the requests.
use kora_db.Base.{
  ℕ, suc, ◌+◌, ◌%◌, ◌^◌, ◌<◌, ◌≡◌, refl, sym, ap, ◌∙◌, Bool, true, false, ◌&&◌, List, [], ◌∷◌,
  bytes_equal, bytes_equal_iff, if◌then◌else◌, arith, Bool-cases, inl, inr,
}
use kora_db.Base.Int.{ℤ}
use kora_db.Server.Metrics.{
  MetricKey, MetricValue, Metrics, same_key, count_outcome, new_metrics, begin_request,
  record_outcome, Call, begins, ends, call_all,
}

-- The count under a key, 0 where there is none.
abbrev pub count_of : MetricKey → List (MetricKey × MetricValue) → ℕ
count_of k [] = 0
count_of k ((j, v) ∷ m) = let rest = count_of k m in if same_key j k then v.count else rest

-- The requests among the calls that have ended with a key.
abbrev pub ended : MetricKey → List Call → ℕ
ended k [] = 0
ended k (begins ∷ cs) = ended k cs
ended k (ends j duration ∷ cs) = let n = ended k cs in if same_key j k then suc n else n

same_key_eq : (i j : MetricKey) → same_key i j ≡ true → (i.method ≡ j.method) × (i.code ≡ j.code)
same_key_eq i j h = (
  (bytes_equal_iff i.method j.method).0 (ground (arith, h)),
  (bytes_equal_iff i.code j.code).0 (ground (arith, h)),
)

same_key_left : (i j k : MetricKey) → same_key i j ≡ true → same_key i k ≡ same_key j k
same_key_left i j k h =
    let (p, q) = same_key_eq i j h in
    ap (λ x. bytes_equal x k.method && bytes_equal i.code k.code) p
    ∙ ap (λ x. bytes_equal j.method k.method && bytes_equal x k.code) q

same_key_right : (i j k : MetricKey) → same_key j k ≡ true → same_key i j ≡ same_key i k
same_key_right i j k h =
    let (p, q) = same_key_eq j k h in
    ap (λ x. bytes_equal i.method x && bytes_equal i.code j.code) p
    ∙ ap (λ x. bytes_equal i.method k.method && bytes_equal i.code x) q

-- One step of the update, by the tests of the three keys.
step_count :
    (a c d : ℕ) (ik jk : Bool)
    → c ≡ (if jk then (d + 1) % 2 ^ 64 else d)
    → (jk ≡ true → ik ≡ false)
    → (if ik then a else c)
      ≡ (if jk then ((if ik then a else d) + 1) % 2 ^ 64 else (if ik then a else d))
step_count a c d true true h k = absurd (cc (k refl))
step_count a c d true false h k = refl
step_count a c d false jk h k = h

count_of-count_outcome :
    (k j : MetricKey) (d : ℤ) (m : List (MetricKey × MetricValue))
    → count_of k (count_outcome j d m)
      ≡ (if same_key j k then (count_of k m + 1) % 2 ^ 64 else count_of k m)
unfolding count_outcome
count_of-count_outcome k j d [] = refl
count_of-count_outcome k j d ((i, v) ∷ m) = elim (Bool-cases (same_key i j)) [
  | inl e ↦ rw e (ground (arith, same_key_left i j k e))
  | inr e ↦ rw e (
      step_count v.count (count_of k (count_outcome j d m)) (count_of k m) (same_key i k)
        (same_key j k) (count_of-count_outcome k j d m) λ h. sym (same_key_right i j k h) ∙ e)
]

sum_count :
    (x c n : ℕ) (b : Bool)
    → x ≡ (if b then (c + 1) % 2 ^ 64 else c)
    → (x + n) % 2 ^ 64 ≡ (c + (if b then suc n else n)) % 2 ^ 64
sum_count x c n true h = omega (arith, h)
sum_count x c n false h = omega (arith, h)

at_most : {a b : ℕ} → a ≡ b → b < 2 ^ 64 → a < 2 ^ 64
at_most h k = omega (arith, h, k)

counts_from :
    (k : MetricKey) (cs : List Call) (m : Metrics)
    → count_of k m.outcomes < 2 ^ 64
    → count_of k (call_all cs m).outcomes ≡ (count_of k m.outcomes + ended k cs) % 2 ^ 64
unfolding call_all begin_request record_outcome
counts_from k [] m h = omega arith
counts_from k (begins ∷ cs) m h = counts_from k cs (begin_request m) h
counts_from k (ends j d ∷ cs) m h =
    let e = count_of-count_outcome k j d m.outcomes in
    let low : count_of k (count_outcome j d m.outcomes) < 2 ^ 64 =
      elim (Bool-cases (same_key j k)) [
        | inl b ↦ at_most (rw b at e) (omega arith)
        | inr b ↦ at_most (rw b at e) h
      ] in
    counts_from k cs (record_outcome j d m) low
    ∙ sum_count (count_of k (count_outcome j d m.outcomes)) (count_of k m.outcomes) (ended k cs)
        (same_key j k) e

-- After any calls of begin and record, in any order, on new metrics: the counter under a method and a
-- code is the number of requests that have ended with them, modulo 2 ^ 64.
pub count_of-call_all :
    (k : MetricKey) (cs : List Call)
    → count_of k (call_all cs new_metrics).outcomes ≡ ended k cs % 2 ^ 64
count_of-call_all k cs =
    counts_from k cs new_metrics (omega arith) ∙ ap (λ n. n % 2 ^ 64) (omega arith)
