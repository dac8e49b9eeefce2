-- ===== src/Base/Errors.antt =====
-- Go's (value, error) pairs. The errors of the packages are the constructors of `Error`; an error
-- that a package wraps with %w is the constructor that errors.Is would find in it.
use mathlib.Core.Path.{◌≡◌, refl, ap, ◌∙◌}
use mathlib.Core.Logic.{◌⊎◌, inl, inr}
use mathlib.Core.Bool.{Bool, true, false}
use Prim.Native.Nat.{ℕ}
use kora_db.Base.Strings.{Bytes}

pub data Error : Type 0 where
  -- an error of code outside the repository (bbolt, protobuf, the file system), by a number
  external : ℕ → Error
  -- internal/storage
  key_not_found : Error
  -- a run-time panic: a protoreflect.Value read as another type
  panic : Error
  -- strconv, and the conversions of internal/engine/values.go
  syntax out_of_range : Error
  -- internal/index
  unindexable : Bytes → Error
  -- internal/schema
  no_schemas message_not_found not_a_message : Bytes → Error
  message_removed field_removed field_changed message_type_changed enum_type_changed : Bytes → Error
  enum_removed enum_value_changed : Bytes → Error
  compile_failed no_files_produced encode_descriptors decode_descriptors : Bytes → Error
  rebuild_failed corrupt_schema corrupt_history : Error
  -- never returned: a bound on a loop of the model (Schema/Files) that is always enough
  out_of_fuel : Error
  unresolved_active unresolved_candidate : Bytes → Error
  -- internal/engine
  not_found : Error
  collection_not_found : Bytes → Error
  document_not_found : Bytes → Bytes → Error
  collection_exists : Error
  duplicate_key : Bytes → Bytes → Error
  key_field_missing key_field_not_scalar key_kind_unsupported : Bytes → Error
  index_field_missing index_field_kind : Bytes → Error
  invalid_document decode_document marshal_document : Error
  immutable_key : Bytes → Error
  invalid_id : Bytes → Error
  invalid_key_length : ℕ → Error
  not_comparable : Bytes → Error
  -- internal/query
  page_size_not_positive invalid_page_token page_complete : Error
  field_missing compare_repeated : Bytes → Error
  unknown_operator : ℕ → Error
  result_limit : ℕ → Error
  canceled deadline_exceeded : Error
  -- internal/auth
  invalid_role invalid_name expiry_in_past invalid_token last_admin corrupt_key stop_scan : Error
  unknown_role : Bytes → Error
  -- internal/recovery; `restore_refused` carries a text alone
  snapshot_too_large destination_exists rollback_path_required rollback_path_exists : Error
  restore_refused : Error

-- A Go function returns the zero value with its error; only one of the two is kept here.
pub data Result {ℓ} (V : Type ℓ) : Type ℓ where
  err : Error → Result V
  ok : V → Result V

pub Result-cases {ℓ} :
    {A : Type ℓ} (r : Result A) → ((a : A) × (r ≡ ok a)) ⊎ ((e : Error) × (r ≡ err e))
Result-cases (ok a) = inl (a, refl)
Result-cases (err e) = inr (e, refl)

-- `if bad { return err }`
abbrev pub reject : Bool → Error → Result (Unit {0})
reject false e = ok tt
reject true e = err e

-- `x, err := m; if err != nil { return err }`, and what follows it.
infixl 5 ◌>>=◌
abbrev pub ◌>>=◌ {ℓ κ} : {V : Type ℓ} {W : Type κ} → Result V → (V → Result W) → Result W
err e >>= next = err e
ok v >>= next = next v

-- The same for a call that returns an error alone.
infixl 5 ◌>>◌
abbrev pub ◌>>◌ {κ} : {W : Type κ} → Result (Unit {0}) → Result W → Result W
checked >> next = checked >>= (λ _. next)

-- `if err != nil { return fmt.Errorf(…) }`: another error in the place of the one that came.
abbrev pub or_error {ℓ} : {A : Type ℓ} → Error → Result A → Result A
or_error e (ok a) = ok a
or_error e (err d) = err e

pub ok-injective {ℓ} : {A : Type ℓ} {a b : A} → ok a ≡ ok b → a ≡ b
ok-injective h = cc

pub reject-eq-ok {ℓ} :
    {A : Type ℓ} (b : Bool) (e : Error) (m : Result A) {a : A}
    → (reject b e >> m) ≡ ok a
    → (b ≡ false) × (m ≡ ok a)
reject-eq-ok true e m h = absurd (cc)
reject-eq-ok false e m h = (refl, h)

pub or_error-eq-ok {ℓ} :
    {A : Type ℓ} (e : Error) (r : Result A) {a : A} → or_error e r ≡ ok a → r ≡ ok a
or_error-eq-ok e (ok b) h = h
or_error-eq-ok e (err d) h = cc

-- A successful bind hands on the value of its first part.
pub >>=-elim {ℓ κ μ} :
    {A : Type ℓ} {B : Type κ} {C : Type μ} (m : Result A) {f : A → Result B} {b : B}
    → (m >>= f) ≡ ok b
    → ((a : A) → m ≡ ok a → f a ≡ ok b → C)
    → C
>>=-elim (ok a) h k = k a refl h
>>=-elim (err e) h k = absurd (cc)

-- The same for a call that returns an error alone.
pub checked-eq-ok {κ} :
    {C : Type κ} (m : Result (Unit {0})) (r : Result C) {c : C}
    → (m >> r) ≡ ok c
    → (m ≡ ok tt) × (r ≡ ok c)
checked-eq-ok (ok tt) r h = (refl, h)
checked-eq-ok (err e) r h = absurd (cc)

pub checked-ok {κ} :
    {C : Type κ} {m : Result (Unit {0})} {r : Result C} {c : C}
    → m ≡ ok tt
    → r ≡ ok c
    → (m >> r) ≡ ok c
checked-ok {r = r} h k = ap (λ x. x >> r) h ∙ k
