-- ===== src/Server/Concurrency/Bounds.antt =====
-- The bounds that the limits on requests keep.
use kora_db.Base.{
  ℕ, suc, ◌+◌, ◌≤◌, ◌<◌, ◌≡◌, refl, sym, ◌∙◌, ◌↔◌, false, List, [], ◌∷◌, none, some, length,
  length-append, arith, Bool-cases, inl, inr,
}
use mathlib.Core.Path.{subst}
use kora_db.Base.Int.{ℤ, pos, ltb_ℤ}
use kora_db.Server.Concurrency.{
  InFlight, acquire, release, Step, admit, refuse, finish, leave, Reachable, initial, next, Floats,
  TokenBucket, new_token_bucket, min_float, refilled, taken, allow, allow_all,
}

record Counted (max : ℕ) (s : InFlight) : Type 0 where
  count : length s.running + length s.returned ≡ s.slots
  within : s.slots ≤ max

acquire-eq-some :
    (max slots : ℕ) {slots' : ℕ}
    → acquire max slots ≡ some slots'
    → (slots < max) × (slots' ≡ suc slots)
unfolding acquire
acquire-eq-some max slots h = ground arith

acquire-eq-none : (max slots : ℕ) → slots ≤ max → (acquire max slots ≡ none) ↔ (slots ≡ max)
unfolding acquire
acquire-eq-none max slots h = ground arith

Step-Counted : (max : ℕ) (s s' : InFlight) → Step max s s' → Counted max s → Counted max s'
unfolding release
Step-Counted max _ _ (admit id running returned slots slots' h) c =
    let (room, grown) = acquire-eq-some max slots h in
    record { count = omega (arith, c.count, grown); within = omega (arith, room, grown) }
Step-Counted max _ _ (refuse running returned slots h) c = c
Step-Counted max _ _ (finish id before others returned slots) c =
    let e = length-append before (id ∷ others) in
    let e' = length-append before others in
    record { count = omega (arith, c.count, e, e'); within = c.within }
Step-Counted max _ _ (leave id running before others slots) c =
    let e = length-append before (id ∷ others) in
    let e' = length-append before others in
    record { count = omega (arith, c.count, e, e'); within = omega (arith, c.within) }

Reachable-Counted : (max : ℕ) (s : InFlight) → Reachable max s → Counted max s
Reachable-Counted max _ initial = record { count = refl; within = omega arith }
Reachable-Counted max s' (next s _ r step) = Step-Counted max s s' step (Reachable-Counted max s r)

-- In every state that the server can come to, no more handlers run than the capacity, and the next
-- request is refused if and only if as many requests run or have returned without their deferred call.
pub Reachable-bounded :
    (max : ℕ) (s : InFlight)
    → Reachable max s
    → (length s.running ≤ max)
      × ((acquire max s.slots ≡ none) ↔ (length s.running + length s.returned ≡ max))
Reachable-bounded max s r =
    let c = Reachable-Counted max s r in
    let full = acquire-eq-none max s.slots c.within in
    (omega (arith, c.count, c.within), (λ h. c.count ∙ full.0 h, λ h. full.1 (sym c.count ∙ h)))

-- What the platform's floats satisfy: no number is less than itself, and taking 1 from a number that is
-- not above a bound does not put it above the bound.
pub record IsFloats (F : Floats) : Type 0 where
  pub less_irrefl : (a : F.Float) → F.less a a ≡ false
  pub less-minus_one : (a b : F.Float) → F.less a b ≡ false → F.less a (F.minus_one b) ≡ false

module _ (F : Floats) (L : IsFloats F) where
  min_float_le : (a b : F.Float) → F.less a (min_float F a b) ≡ false
  unfolding min_float
  min_float_le a b = elim (Bool-cases (F.less a b)) [
    | inl e ↦ rw e (L.less_irrefl a)
    | inr e ↦ rw e e
  ]

  Bounded : TokenBucket F → Type 0
  Bounded b = F.less b.burst b.tokens ≡ false

  taken-Bounded : (b : TokenBucket F) → Bounded b → Bounded (taken F b).1
  unfolding Bounded
  taken-Bounded b h = elim (Bool-cases (F.less b.tokens (F.of_int (pos 1)))) [
    | inl e ↦ rw e h
    | inr e ↦ rw e (L.less-minus_one b.burst b.tokens h)
  ]

  allow-Bounded : (b : TokenBucket F) (now : ℤ) → Bounded b → Bounded (allow F b now).1
  unfolding allow Bounded
  allow-Bounded b now h = elim (Bool-cases (F.less (F.of_int (pos 0)) b.rate)) [
    | inl e ↦ rw e (taken-Bounded (refilled F b now) (min_float_le b.burst _))
    | inr e ↦ rw e h
  ]

  all_Bounded : (b : TokenBucket F) (times : List ℤ) → Bounded b → Bounded (allow_all F b times)
  unfolding allow_all
  all_Bounded b [] h = h
  all_Bounded b (now ∷ times) h = all_Bounded (allow F b now).1 times (allow-Bounded b now h)

  new-Bounded : (rate burst now : ℤ) → Bounded (new_token_bucket F rate burst now)
  unfolding new_token_bucket Bounded
  new-Bounded rate burst now = elim (Bool-cases (ltb_ℤ (pos 0) rate)) [
    | inl e ↦ rw e (L.less_irrefl _)
    | inr e ↦ rw e (L.less_irrefl _)
  ]

  -- Where no number of the platform is less than itself, and taking 1 from a number puts it above no bound:
  -- after any calls of allow on a new bucket, its tokens are not above its burst.
  pub allow_all-bounded :
      (rate burst start : ℤ) (times : List ℤ) (b : TokenBucket F)
      → allow_all F (new_token_bucket F rate burst start) times ≡ b
      → F.less b.burst b.tokens ≡ false
  unfolding Bounded
  allow_all-bounded rate burst start times b h =
      subst Bounded h
        (all_Bounded (new_token_bucket F rate burst start) times (new-Bounded rate burst start))
