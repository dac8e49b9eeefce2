-- ===== src/Storage.antt =====
-- internal/storage/storage.go: the transaction methods over bbolt.
-- bbolt itself is outside the repository: `Bolt` is what the code calls of it, over an unknown
-- transaction state, and `IsBolt` (Storage/Laws) is what its documentation says of these calls.
pub mod Laws
pub mod Memory
use kora_db.Base.{
  ℕ, Bytes, Bool, true, false, not, Option, none, some, List, [], ◌∷◌, Error, Result, ok, err,
  ◌>>=◌, key_not_found, has_prefix, if◌then◌else◌,
}

-- The calls of bolt.Tx, bolt.Bucket and bolt.Cursor. A bucket is addressed by its name, and `get`
-- of a missing key is Go's nil. `for_each` is the order in which ForEach visits a bucket, and `seek`
-- is what a cursor visits from Seek on. `commit` says whether the commit of a transaction fails, and
-- `rollback` is the file once a write transaction that began on it has been rolled back.
pub record Bolt : Type 1 where
  pub Tx : Type 0
  pub has_bucket : Tx → Bytes → Bool
  pub get : Tx → Bytes → Bytes → Option Bytes
  pub for_each : Tx → Bytes → List (Bytes × Bytes)
  pub seek : Tx → Bytes → Bytes → List (Bytes × Bytes)
  pub sequence : Tx → Bytes → ℕ
  pub create_bucket : Tx → Bytes → Result Tx
  pub put : Tx → Bytes → Bytes → Bytes → Result Tx
  pub delete : Tx → Bytes → Bytes → Result Tx
  pub next_sequence : Tx → Bytes → Result (ℕ × Tx)
  pub delete_bucket : Tx → Bytes → Result Tx
  pub commit : Tx → Option Error
  pub rollback : Tx → Tx

-- A callback gets the state of the variables that it captures, and returns it with its error.
abbrev pub Callback {ℓ} : Type ℓ → Type ℓ
Callback S = S → Bytes → Bytes → S × Option Error

-- `if err := fn(…); err != nil { return err }`, and the rest of the loop.
abbrev pub unless_error {ℓ} : {S : Type ℓ} → Option Error → S → S × Option Error → S × Option Error
unless_error none s rest = rest
unless_error (some x) s rest = (s, some x)

module _ {ℓ} {S : Type ℓ} (fn : Callback S) where
  -- The loop of ForEach: the first error of the callback ends it.
  unfoldable pub scan_items : S → List (Bytes × Bytes) → S × Option Error
  scan_items s [] = (s, none)
  scan_items s ((k, v) ∷ kvs) =
      let (s', e) = fn s k v in let rest = scan_items s' kvs in unless_error e s' rest

  -- The `for` loop of PrefixScan.
  unfoldable pub prefix_scan_items : Bytes → S → List (Bytes × Bytes) → S × Option Error
  prefix_scan_items prefix s [] = (s, none)
  prefix_scan_items prefix s ((k, v) ∷ kvs) =
      let (s', e) = fn s k v in
      let rest = prefix_scan_items prefix s' kvs in
      if has_prefix k prefix then unless_error e s' rest else (s, none)

module _ (B : Bolt) where
  unfoldable pub put : B.Tx → Bytes → Bytes → Bytes → Result B.Tx
  put t bucket key val = do t' ← B.create_bucket t bucket; B.put t' bucket key val

  unfoldable pub get : B.Tx → Bytes → Bytes → Result Bytes
  get t bucket key =
      if not (B.has_bucket t bucket)
      then err key_not_found
      else elim (B.get t bucket key) [ none ↦ err key_not_found | some v ↦ ok v ]

  unfoldable pub has : B.Tx → Bytes → Bytes → Bool
  has t bucket key =
      if not (B.has_bucket t bucket)
      then false
      else elim (B.get t bucket key) [ none ↦ false | some v ↦ true ]

  unfoldable pub delete : B.Tx → Bytes → Bytes → Result B.Tx
  delete t bucket key = if not (B.has_bucket t bucket) then ok t else B.delete t bucket key

  unfoldable pub scan {ℓ} : {S : Type ℓ} → B.Tx → Bytes → Callback S → S → S × Option Error
  scan t bucket fn s =
      if not (B.has_bucket t bucket) then (s, none) else scan_items fn s (B.for_each t bucket)

  unfoldable pub prefix_scan {ℓ} :
      {S : Type ℓ} → B.Tx → Bytes → Bytes → Callback S → S → S × Option Error
  prefix_scan t bucket prefix fn s =
      if not (B.has_bucket t bucket)
      then (s, none)
      else prefix_scan_items fn prefix s (B.seek t bucket prefix)

  unfoldable pub next_sequence : B.Tx → Bytes → Result (ℕ × B.Tx)
  next_sequence t bucket = do t' ← B.create_bucket t bucket; B.next_sequence t' bucket

  unfoldable pub delete_bucket : B.Tx → Bytes → Result B.Tx
  delete_bucket t bucket = if B.has_bucket t bucket then B.delete_bucket t bucket else ok t

  unfoldable pub bucket_exists : B.Tx → Bytes → Bool
  bucket_exists t bucket = B.has_bucket t bucket

  -- The end of Update: a failed commit rolls back.
  settle {ℓ} : {A : Type ℓ} → B.Tx → A → B.Tx → Option Error → Result A × B.Tx
  settle t a t' none = (ok a, t')
  settle t a t' (some e) = (err e, B.rollback t)

  -- Update: bbolt commits, or rolls back at an error of `fn` or of the commit.
  unfoldable pub update {ℓ} : {A : Type ℓ} → (B.Tx → Result (A × B.Tx)) → B.Tx → Result A × B.Tx
  unfolding settle
  update fn t = elim (fn t) [
    | err e ↦ (err e, B.rollback t)
    | ok (a, t') ↦ settle t a t' (B.commit t')
  ]

  -- View: `fn` reads a snapshot.
  unfoldable pub view {ℓ} : {A : Type ℓ} → (B.Tx → Result A) → B.Tx → Result A
  view fn t = fn t
