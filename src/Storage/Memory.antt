-- ===== src/Storage/Memory.antt =====
-- A transaction state in memory that meets the laws of bbolt: it shows that they can hold, and the
-- tests run on it. It models no code of the repository.
use kora_db.Base.{
  ℕ, suc, ◌^◌, ◌≡◌, refl, Bytes, Bool, true, false, ◌&&◌, Option-cases, Option, none, some, List,
  [], ◌∷◌, ok, err, external, bytes_equal, bytes_equal_iff, bytes_compare, bytes_compare_trans,
  bytes_compare-flip, bytes_compare_refl, Bool-cases, inl, inr, ◌↔◌, bytes_compare_eq, Ordering,
  arith, ltb, if◌then◌else◌,
}
use kora_db.Storage.{Bolt}
use kora_db.Storage.Laws.{IsBolt, lookup, IsBelow, IsSorted, drop_less}

pub record Bucket : Type 0 where
  pub sequence : ℕ
  pub items : List (Bytes × Bytes)

abbrev pub Memory : Type 0
Memory = Bytes → Option Bucket

-- One step of the insertion, by the order of the two keys.
abbrev place :
    Ordering
    → Bytes × Bytes
    → Bytes × Bytes
    → List (Bytes × Bytes)
    → List (Bytes × Bytes)
    → List (Bytes × Bytes)
place Ordering.lt x y m rest = x ∷ y ∷ m
place Ordering.eq x y m rest = x ∷ m
place Ordering.gt x y m rest = y ∷ rest

abbrev insert : Bytes → Bytes → List (Bytes × Bytes) → List (Bytes × Bytes)
insert k v [] = (k, v) ∷ []
insert k v ((j, w) ∷ m) = place (bytes_compare k j) (k, v) (j, w) m (insert k v m)

unfoldable pub sort : List (Bytes × Bytes) → List (Bytes × Bytes)
sort [] = []
sort ((k, v) ∷ m) = insert k v (sort m)

lookup-place :
    (o : Ordering) (k v i w j : Bytes) (m rest : List (Bytes × Bytes))
    → (o ≡ Ordering.eq) ↔ (k ≡ i)
    → lookup j rest ≡ (if bytes_equal k j then some v else lookup j m)
    → lookup j (place o (k, v) (i, w) m rest)
      ≡ (if bytes_equal k j then some v else lookup j ((i, w) ∷ m))
lookup-place Ordering.lt k v i w j m rest e h = refl
lookup-place Ordering.eq k v i w j m rest e h = ground (arith, e.0 refl)
lookup-place Ordering.gt k v i w j m rest e h = elim (Bool-cases (bytes_equal i j)) [
  | inl same ↦ rw same (ground (arith, bytes_equal_iff k j, bytes_equal_iff i j, e.1))
  | inr other ↦ rw other h
]

bytes_compare_iff : (s t : Bytes) → (bytes_compare s t ≡ Ordering.eq) ↔ (s ≡ t)
bytes_compare_iff s t = (bytes_compare_eq s t, λ e. rw e (bytes_compare_refl t))

lookup-insert :
    (k v j : Bytes) (m : List (Bytes × Bytes))
    → lookup j (insert k v m) ≡ (if bytes_equal k j then some v else lookup j m)
lookup-insert k v j [] = refl
lookup-insert k v j ((i, w) ∷ m) =
    lookup-place (bytes_compare k i) k v i w j m _ (bytes_compare_iff k i) (lookup-insert k v j m)

lookup-sort : (j : Bytes) (m : List (Bytes × Bytes)) → lookup j (sort m) ≡ lookup j m
unfolding sort
lookup-sort j [] = refl
lookup-sort j ((k, v) ∷ m) = ground (arith, lookup-insert k v j (sort m), lookup-sort j m)

IsBelow-trans :
    (i k : Bytes) (m : List (Bytes × Bytes))
    → bytes_compare i k ≡ Ordering.lt
    → IsBelow k m
    → IsBelow i m
IsBelow-trans i k [] h b = tt
IsBelow-trans i k ((j, w) ∷ m) h b = (bytes_compare_trans i k j h b.0, IsBelow-trans i k m h b.1)

IsBelow-insert :
    (i k v : Bytes) (m : List (Bytes × Bytes))
    → bytes_compare i k ≡ Ordering.lt
    → IsBelow i m
    → IsBelow i (insert k v m)
IsBelow-insert i k v [] h b = (h, tt)
IsBelow-insert i k v ((j, w) ∷ m) h b = ground (arith, IsBelow-insert i k v m h b.1)

IsSorted-insert : (k v : Bytes) (m : List (Bytes × Bytes)) → IsSorted m → IsSorted (insert k v m)
IsSorted-insert k v [] s = (tt, tt)
IsSorted-insert k v ((j, w) ∷ m) s = ground (
  arith,
  IsSorted-insert k v m s.1,
  IsBelow-insert j k v m,
  IsBelow-trans k j m,
  bytes_compare-flip k j,
  bytes_compare_eq k j,
)

IsSorted-sort : (m : List (Bytes × Bytes)) → IsSorted (sort m)
unfolding sort
IsSorted-sort [] = tt
IsSorted-sort ((k, v) ∷ m) = IsSorted-insert k v (sort m) (IsSorted-sort m)

unfoldable pub remove : Bytes → List (Bytes × Bytes) → List (Bytes × Bytes)
remove k [] = []
remove k ((j, w) ∷ m) = let rest = remove k m in if bytes_equal j k then rest else (j, w) ∷ rest

lookup-remove :
    (k j : Bytes) (m : List (Bytes × Bytes))
    → lookup j (remove k m) ≡ (if bytes_equal k j then none else lookup j m)
unfolding remove
lookup-remove k j [] = ground arith
lookup-remove k j ((i, w) ∷ m) =
    ground
      (arith, lookup-remove k j m, bytes_equal_iff i k, bytes_equal_iff i j, bytes_equal_iff k j)

abbrev is_blank : Bytes → Bool
is_blank [] = true
is_blank (a ∷ k) = false

abbrev assign : Memory → Bytes → Bucket → Memory
assign t b x c = if bytes_equal b c then some x else t c

-- Error numbers: 1 for a blank key, 2 for a missing bucket or a blank name, 3 for a spent sequence.
abbrev pub memory : Bolt
memory = record {
  Tx = Memory;
  has_bucket = λ t b. elim (t b) [ none ↦ false | some x ↦ true ];
  get = λ t b k. elim (t b) [ none ↦ none | some x ↦ lookup k x.items ];
  for_each = λ t b. elim (t b) [ none ↦ [] | some x ↦ sort x.items ];
  seek = λ t b p. drop_less p (elim (t b) [ none ↦ [] | some x ↦ sort x.items ]);
  sequence = λ t b. elim (t b) [ none ↦ 0 | some x ↦ x.sequence ];
  create_bucket = λ t b. if is_blank b then err (external 2) else elim (t b) [
    | some x ↦ ok t
    | none ↦ ok (assign t b (record { sequence = 0; items = [] }))
  ];
  put = λ t b k v. if is_blank k then err (external 1) else elim (t b) [
    | none ↦ err (external 2)
    | some x ↦ ok (assign t b (record x { items = (k, v) ∷ x.items }))
  ];
  delete = λ t b k. elim (t b) [
    | none ↦ err (external 2)
    | some x ↦ ok (assign t b (record x { items = remove k x.items }))
  ];
  next_sequence = λ t b. elim (t b) [
    | none ↦ err (external 2)
    | some x ↦
        let n = suc x.sequence in
        if ltb n (2 ^ 64) then ok (n, assign t b (record x { sequence = n })) else err (external 3)
  ];
  delete_bucket = λ t b. elim (t b) [
    | none ↦ err (external 2)
    | some x ↦ ok (λ c. if bytes_equal b c then none else t c)
  ];
  commit = λ t. none;
  rollback = λ t. t;
}

abbrev pub empty : Memory
empty b = none

for_each-IsSorted : (o : Option Bucket) → IsSorted (elim o [ none ↦ [] | some x ↦ sort x.items ])
for_each-IsSorted none = tt
for_each-IsSorted (some x) = IsSorted-sort x.items

lookup-for_each :
    (k : Bytes) (o : Option Bucket)
    → lookup k (elim o [ none ↦ [] | some x ↦ sort x.items ])
      ≡ elim o [ none ↦ none | some x ↦ lookup k x.items ]
lookup-for_each k none = refl
lookup-for_each k (some x) = lookup-sort k x.items

get-delete :
    (t t' : Memory) (b k c j : Bytes)
    → memory.delete t b k ≡ ok t'
    → memory.get t' c j ≡ (if bytes_equal b c && bytes_equal k j then none else memory.get t c j)
get-delete t t' b k c j h = elim (Option-cases (t b)) [
  | inl e ↦ cc (rw e at h)
  | inr (x, e) ↦ ground (arith, bytes_equal_iff b c, lookup-remove k j x.items, rw e at h)
]

pub IsBolt-memory : IsBolt memory
IsBolt-memory = record {
  get-no_bucket = λ t b k h. ground arith;
  get-create_bucket = λ t t' b c k h. ground (arith, bytes_equal_iff b c);
  has_bucket-create_bucket = λ t t' b c h. ground (arith, bytes_equal_iff b c);
  sequence-create_bucket = λ t t' b c h. ground (arith, bytes_equal_iff b c);
  get-put = λ t t' b k v c j h. ground (arith, bytes_equal_iff b c);
  has_bucket-put = λ t t' b k v c h. ground (arith, bytes_equal_iff b c);
  sequence-put = λ t t' b k v c h. ground (arith, bytes_equal_iff b c);
  get-delete = get-delete;
  has_bucket-delete = λ t t' b k c h. ground (arith, bytes_equal_iff b c);
  sequence-delete = λ t t' b k c h. ground (arith, bytes_equal_iff b c);
  next_sequence-value = λ t t' b n h. ground arith;
  get-next_sequence = λ t t' b c k n h. ground (arith, bytes_equal_iff b c);
  sequence-next_sequence = λ t t' b c n h. ground (arith, bytes_equal_iff b c);
  rollback-same = λ t. refl;
  for_each-IsSorted = λ t b. for_each-IsSorted (t b);
  lookup-for_each = λ t b k. lookup-for_each k (t b);
  seek-for_each = λ t b p. refl;
}
