-- ===== src/Storage/Laws.antt =====
-- What bbolt documents of the calls that storage.go makes, and what the transaction methods of
-- storage.go do under it.
use kora_db.Base.{
  ℕ, suc, ◌<◌, ◌^◌, ◌≡◌, Bytes, Bool, true, false, ◌&&◌, Option, none, some, List, [], ◌∷◌, Result,
  ok, err, Error, key_not_found, bytes_equal, bytes_equal_iff, bytes_compare, bytes_less, Ordering,
  arith, if◌then◌else◌, inl, inr, Result-cases, ◌∙◌,
}
use kora_db.Storage.{Bolt, put, get, has, delete, next_sequence, update, settle}

-- The value of a key in a list of pairs.
abbrev pub lookup {ℓ} : {V : Type ℓ} → Bytes → List (Bytes × V) → Option V
lookup k [] = none
lookup k ((j, v) ∷ m) = if bytes_equal j k then some v else lookup k m

-- Every key of the list is greater.
abbrev pub IsBelow {ℓ} : {V : Type ℓ} → Bytes → List (Bytes × V) → Type 0
IsBelow k [] = Unit {0}
IsBelow k ((j, v) ∷ m) = (bytes_compare k j ≡ Ordering.lt) × IsBelow k m

-- The keys ascend strictly, in the order of bytes.Compare.
abbrev pub IsSorted {ℓ} : {V : Type ℓ} → List (Bytes × V) → Type 0
IsSorted [] = Unit {0}
IsSorted ((k, v) ∷ m) = IsBelow k m × IsSorted m

-- The pairs from the first key on that is not less.
abbrev pub drop_less {ℓ} : {V : Type ℓ} → Bytes → List (Bytes × V) → List (Bytes × V)
drop_less p [] = []
drop_less p ((k, v) ∷ m) = if bytes_less k p then drop_less p m else (k, v) ∷ m

pub record IsBolt (B : Bolt) : Type 0 where
  pub get-no_bucket : (t : B.Tx) (b k : Bytes) → B.has_bucket t b ≡ false → B.get t b k ≡ none
  pub get-create_bucket :
      (t t' : B.Tx) (b c k : Bytes) → B.create_bucket t b ≡ ok t' → B.get t' c k ≡ B.get t c k
  pub has_bucket-create_bucket :
      (t t' : B.Tx) (b c : Bytes)
      → B.create_bucket t b ≡ ok t'
      → B.has_bucket t' c ≡ (if bytes_equal b c then true else B.has_bucket t c)
  pub sequence-create_bucket :
      (t t' : B.Tx) (b c : Bytes) → B.create_bucket t b ≡ ok t' → B.sequence t' c ≡ B.sequence t c
  pub get-put :
      (t t' : B.Tx) (b k v c j : Bytes)
      → B.put t b k v ≡ ok t'
      → B.get t' c j ≡ (if bytes_equal b c && bytes_equal k j then some v else B.get t c j)
  pub has_bucket-put :
      (t t' : B.Tx) (b k v c : Bytes) → B.put t b k v ≡ ok t' → B.has_bucket t' c ≡ B.has_bucket t c
  pub sequence-put :
      (t t' : B.Tx) (b k v c : Bytes) → B.put t b k v ≡ ok t' → B.sequence t' c ≡ B.sequence t c
  pub get-delete :
      (t t' : B.Tx) (b k c j : Bytes)
      → B.delete t b k ≡ ok t'
      → B.get t' c j ≡ (if bytes_equal b c && bytes_equal k j then none else B.get t c j)
  pub has_bucket-delete :
      (t t' : B.Tx) (b k c : Bytes) → B.delete t b k ≡ ok t' → B.has_bucket t' c ≡ B.has_bucket t c
  pub sequence-delete :
      (t t' : B.Tx) (b k c : Bytes) → B.delete t b k ≡ ok t' → B.sequence t' c ≡ B.sequence t c
  pub next_sequence-value :
      (t t' : B.Tx) (b : Bytes) (n : ℕ)
      → B.next_sequence t b ≡ ok (n, t')
      → (n ≡ suc (B.sequence t b)) × (n < 2 ^ 64)
  pub get-next_sequence :
      (t t' : B.Tx) (b c k : Bytes) (n : ℕ)
      → B.next_sequence t b ≡ ok (n, t')
      → B.get t' c k ≡ B.get t c k
  pub sequence-next_sequence :
      (t t' : B.Tx) (b c : Bytes) (n : ℕ)
      → B.next_sequence t b ≡ ok (n, t')
      → B.sequence t' c ≡ (if bytes_equal b c then n else B.sequence t c)
  pub rollback-same : (t : B.Tx) → B.rollback t ≡ t
  pub for_each-IsSorted : (t : B.Tx) (b : Bytes) → IsSorted (B.for_each t b)
  pub lookup-for_each : (t : B.Tx) (b k : Bytes) → lookup k (B.for_each t b) ≡ B.get t b k
  pub seek-for_each : (t : B.Tx) (b p : Bytes) → B.seek t b p ≡ drop_less p (B.for_each t b)

-- An Option read as the (value, error) pair of Txn.Get.
abbrev pub found : Option Bytes → Result Bytes
found none = err key_not_found
found (some v) = ok v

abbrev pub is_some : Option Bytes → Bool
is_some none = false
is_some (some v) = true

module _ (B : Bolt) (L : IsBolt B) where
  pub get-eq-found : (t : B.Tx) (b k : Bytes) → get B t b k ≡ found (B.get t b k)
  unfolding get
  get-eq-found t b k = ground (arith, L.get-no_bucket t b k)

  pub has-eq-is_some : (t : B.Tx) (b k : Bytes) → has B t b k ≡ is_some (B.get t b k)
  unfolding has
  has-eq-is_some t b k = ground (arith, L.get-no_bucket t b k)

  pub get-put :
      (t t' : B.Tx) (b k v c j : Bytes)
      → put B t b k v ≡ ok t'
      → B.get t' c j ≡ (if bytes_equal b c && bytes_equal k j then some v else B.get t c j)
  unfolding put
  get-put t t' b k v c j h = elim (Result-cases (B.create_bucket t b)) [
    | inl (u, e) ↦
        ground (arith, L.get-put u t' b k v c j (rw e at h), L.get-create_bucket t u b c j e)
    | inr (x, e) ↦ ground arith
  ]

  pub sequence-put :
      (t t' : B.Tx) (b k v c : Bytes) → put B t b k v ≡ ok t' → B.sequence t' c ≡ B.sequence t c
  unfolding put
  sequence-put t t' b k v c h = elim (Result-cases (B.create_bucket t b)) [
    | inl (u, e) ↦
        ground (arith, L.sequence-put u t' b k v c (rw e at h), L.sequence-create_bucket t u b c e)
    | inr (x, e) ↦ ground arith
  ]

  pub get-delete :
      (t t' : B.Tx) (b k c j : Bytes)
      → delete B t b k ≡ ok t'
      → B.get t' c j ≡ (if bytes_equal b c && bytes_equal k j then none else B.get t c j)
  unfolding delete
  get-delete t t' b k c j h =
      ground (arith, L.get-delete t t' b k c j, L.get-no_bucket t b j, bytes_equal_iff b c)

  pub sequence-delete :
      (t t' : B.Tx) (b k c : Bytes) → delete B t b k ≡ ok t' → B.sequence t' c ≡ B.sequence t c
  unfolding delete
  sequence-delete t t' b k c h = ground (arith, L.sequence-delete t t' b k c)

  module _ (t t' : B.Tx) (b : Bytes) (n : ℕ) (minted : next_sequence B t b ≡ ok (n, t')) where
    pub next_sequence-value : (n ≡ suc (B.sequence t b)) × (n < 2 ^ 64)
    unfolding next_sequence
    next_sequence-value = elim (Result-cases (B.create_bucket t b)) [
      | inl (u, e) ↦
          rw (← L.sequence-create_bucket t u b b e)
            (L.next_sequence-value u t' b n (rw e at minted))
      | inr (x, e) ↦ absurd (cc (rw e at minted))
    ]

    pub get-next_sequence : (c k : Bytes) → B.get t' c k ≡ B.get t c k
    unfolding next_sequence
    get-next_sequence c k = elim (Result-cases (B.create_bucket t b)) [
      | inl (u, e) ↦
          L.get-next_sequence u t' b c k n (rw e at minted) ∙ L.get-create_bucket t u b c k e
      | inr (x, e) ↦ absurd (cc (rw e at minted))
    ]

    pub sequence-next_sequence :
        (c : Bytes) → B.sequence t' c ≡ (if bytes_equal b c then n else B.sequence t c)
    unfolding next_sequence
    sequence-next_sequence c = elim (Result-cases (B.create_bucket t b)) [
      | inl (u, e) ↦
          rw (← L.sequence-create_bucket t u b c e)
            (L.sequence-next_sequence u t' b c n (rw e at minted))
      | inr (x, e) ↦ absurd (cc (rw e at minted))
    ]

  pub found_lem : (t : B.Tx) (b k : Bytes) {v : Bytes} → get B t b k ≡ ok v → B.get t b k ≡ some v
  found_lem t b k h = ground (arith, get-eq-found t b k)

-- A property of the state outlives a transaction if it outlives the function's success: an error of
-- the function or of the commit rolls the state back.
pub update_keeps {ℓ κ} :
    {A : Type ℓ} (B : Bolt) (L : IsBolt B) (Q : B.Tx → Type κ) (fn : B.Tx → Result (A × B.Tx))
    (t : B.Tx)
    → Q t
    → ((a : A) (t' : B.Tx) → fn t ≡ ok (a, t') → Q t')
    → Q (update B fn t).1
unfolding update
update_keeps {A} B L Q fn t q step = elim (Result-cases (fn t)) [
  | inr (e, h) ↦ rw (h, update) rolled
  | inl ((a, t'), h) ↦ rw (h, update) (committed a t' (step a t' h) (B.commit t'))
]
  where
    rolled : Q (B.rollback t)
    rolled = rw (L.rollback-same t) q

    committed : (a : A) (t' : B.Tx) → Q t' → (o : Option Error) → Q (settle B t a t' o).1
    committed a t' q' none = q'
    committed a t' q' (some e) = rolled

-- A transaction that succeeds is the function's success, and its state is kept.
pub update-eq-ok {ℓ} :
    {A : Type ℓ} (B : Bolt) (fn : B.Tx → Result (A × B.Tx)) (t : B.Tx) {a : A} {t' : B.Tx}
    → update B fn t ≡ (ok a, t')
    → fn t ≡ ok (a, t')
unfolding update
update-eq-ok B fn t h = elim (Result-cases (fn t)) [
  | inr (e, q) ↦ ground (arith, q)
  | inl ((b, u), q) ↦ ground (arith, q)
]

-- A transaction that ends with an error, its function's or its commit's, leaves the state as it was.
pub update-eq-err {ℓ} :
    {A : Type ℓ} (B : Bolt) (L : IsBolt B) (fn : B.Tx → Result (A × B.Tx)) (t : B.Tx) (e : Error)
    {t' : B.Tx}
    → update B fn t ≡ (err e, t')
    → t' ≡ t
unfolding update
update-eq-err B L fn t e h = elim (Result-cases (fn t)) [
  | inr (d, q) ↦ ground (arith, q, L.rollback-same t)
  | inl ((b, u), q) ↦ ground (arith, q, L.rollback-same t)
]
