-- ===== src/Server/Concurrency.antt =====
-- internal/server/interceptors.go: the interceptors for the number and the rate of requests. The
-- semaphore is the length of the channel; the requests interleave as steps of a relation.
pub mod Bounds
use kora_db.Base.{
  ℕ, zero, suc, ◌-◌, ◌≡◌, Bool, true, false, not, List, [], ◌∷◌, ◌++◌, Option, none, some, ltb,
  if◌then◌else◌,
}
use kora_db.Base.Int.{ℤ, pos, negsuc, ltb_ℤ}

-- The requests whose handlers run, those whose handlers have returned and whose deferred call is to come,
-- and the length of the channel.
pub record InFlight : Type 0 where
  pub running : List ℕ
  pub returned : List ℕ
  pub slots : ℕ

-- `case semaphore <- struct{}{}` on a channel of the capacity `max`: none is the default case.
unfoldable pub acquire : ℕ → ℕ → Option ℕ
acquire max slots = if ltb slots max then some (suc slots) else none

-- `<-semaphore`, which the deferred call does
unfoldable pub release : ℕ → ℕ
release slots = slots - 1

-- The steps of the requests that go through ConcurrencyInterceptor.
pub data Step (max : ℕ) : InFlight → InFlight → Type 0 where
  admit :
      (id : ℕ) (running returned : List ℕ) (slots slots' : ℕ)
      → acquire max slots ≡ some slots'
      → Step max
          (record { running = running; returned = returned; slots = slots })
          (record { running = id ∷ running; returned = returned; slots = slots' })
  refuse :
      (running returned : List ℕ) (slots : ℕ)
      → acquire max slots ≡ none
      → Step max
          (record { running = running; returned = returned; slots = slots })
          (record { running = running; returned = returned; slots = slots })
  -- `handler(ctx, req)` returns
  finish :
      (id : ℕ) (before others returned : List ℕ) (slots : ℕ)
      → Step max
          (record { running = before ++ id ∷ others; returned = returned; slots = slots })
          (record { running = before ++ others; returned = id ∷ returned; slots = slots })
  -- the deferred call
  leave :
      (id : ℕ) (running before others : List ℕ) (slots : ℕ)
      → Step max
          (record { running = running; returned = before ++ id ∷ others; slots = slots })
          (record { running = running; returned = before ++ others; slots = release slots })

-- What the server can come to from its start.
pub data Reachable (max : ℕ) : InFlight → Type 0 where
  initial : Reachable max (record { running = []; returned = []; slots = 0 })
  next : (s s' : InFlight) → Reachable max s → Step max s s' → Reachable max s'

-- The platform's floats, as tokenBucket uses them.
pub record Floats : Type 1 where
  pub Float : Type 0
  pub of_int : ℤ → Float
  pub plus : Float → Float → Float
  pub times : Float → Float → Float
  pub minus_one : Float → Float
  pub less : Float → Float → Bool
  -- now.Sub(refreshed).Seconds(), of two times in nanoseconds
  pub seconds_between : ℤ → ℤ → Float

module _ (F : Floats) where
  -- tokenBucket
  pub record TokenBucket : Type 0 where
    pub rate : F.Float
    pub burst : F.Float
    pub tokens : F.Float
    pub refreshed : ℤ

  abbrev is_positive : ℤ → Bool
  is_positive z = ltb_ℤ (pos 0) z

  abbrev full_bucket : ℤ → ℤ → ℤ → TokenBucket
  full_bucket rate burst now = record {
    rate = F.of_int rate;
    burst = F.of_int burst;
    tokens = F.of_int burst;
    refreshed = now;
  }

  -- newTokenBucket; the zero bucket is that of no limit
  unfoldable pub new_token_bucket : ℤ → ℤ → ℤ → TokenBucket
  new_token_bucket requests_per_second burst now =
      if not (is_positive requests_per_second)
      then full_bucket (pos 0) (pos 0) (pos 0)
      else full_bucket requests_per_second
          (if is_positive burst then burst else requests_per_second) now

  -- minFloat
  unfoldable pub min_float : F.Float → F.Float → F.Float
  min_float a b = if F.less a b then a else b

  abbrev pub refilled : TokenBucket → ℤ → TokenBucket
  refilled b now = record b {
    tokens =
        min_float b.burst (F.plus b.tokens (F.times (F.seconds_between now b.refreshed) b.rate));
    refreshed = now;
  }

  abbrev pub taken : TokenBucket → Bool × TokenBucket
  taken b =
      if F.less b.tokens (F.of_int (pos 1))
      then (false, b)
      else (true, record b { tokens = F.minus_one b.tokens })

  -- allow
  unfoldable pub allow : TokenBucket → ℤ → Bool × TokenBucket
  allow b now = if not (F.less (F.of_int (pos 0)) b.rate) then (true, b) else taken (refilled b now)

  -- A sequence of calls, at the given times.
  unfoldable pub allow_all : TokenBucket → List ℤ → TokenBucket
  allow_all b [] = b
  allow_all b (now ∷ times) = allow_all (allow b now).1 times
