-- ===== src/Schema/Compat/Keeps.antt =====
-- What a compatible version of a schema keeps of the old one.
use kora_db.Base.Int.{ℤ, eq_ℤ, eq_ℤ_iff}
use kora_db.Base.{
  ℕ, ◌==◌, ◌≡◌, refl, sym, ap, ◌∙◌, Bool, true, false, not, ◌&&◌, ◌↔◌, inl, inr, Bytes, some, List,
  [], ◌∷◌, Error, ok, ◌>>◌, checked-eq-ok, reject, reject-eq-ok, bytes_equal, bytes_equal_iff,
  ==_iff, arith, search-cases,
}
use kora_db.Index.{is_message}
use kora_db.Engine.Meta.{require-eq-ok}
use kora_db.Schema.Compat.{
  kind_number, cardinality_number, Field, EnumValue, Enum, Message, Messages, no_messages,
  and_message, name_of, find_message, find_field, find_enum, find_enum_value, is_enum,
  same_contract, same_flag, ensure_field_compatible, ensure_fields_compatible,
  ensure_enum_values_compatible, ensure_enums_compatible, ensure_message_compatible,
  ensure_messages_compatible,
}

-- The contract of a field, which a new version may not change.
pub record SameField (old new : Field) : Type 0 where
  pub of_name : old.name ≡ new.name
  pub of_kind : kind_number old.kind ≡ kind_number new.kind
  pub of_cardinality : cardinality_number old.cardinality ≡ cardinality_number new.cardinality
  pub of_presence : old.has_presence ≡ new.has_presence
  pub of_map : old.is_map ≡ new.is_map
  pub of_oneof : old.oneof_name ≡ new.oneof_name
  pub of_message : is_message old.kind ≡ true → old.message_name ≡ new.message_name
  pub of_enum : is_enum old.kind ≡ true → old.enum_name ≡ new.enum_name

same_flag_iff : (a b : Bool) → (same_flag a b ≡ true) ↔ (a ≡ b)
same_flag_iff a b = ground arith

rejects_iff :
    (a b c : Bool) (x y z : Error)
    → ((reject a x >> (reject b y >> reject c z)) ≡ ok tt)
      ↔ ((a ≡ false) × (b ≡ false) × (c ≡ false))
rejects_iff true b c x y z = (λ h. absurd (cc), λ h. absurd (cc))
rejects_iff false true c x y z = (λ h. absurd (cc), λ h. absurd (cc))
rejects_iff false false true x y z = (λ h. absurd (cc), λ h. absurd (cc))
rejects_iff false false false x y z = (λ h. (refl, refl, refl), λ h. refl)

pub compatible_iff :
    (old new : Field)
    → (ensure_field_compatible old new ≡ ok tt) ↔ (
        (not (same_contract old new) ≡ false)
        × ((is_message old.kind && not (bytes_equal old.message_name new.message_name)) ≡ false)
        × ((is_enum old.kind && not (bytes_equal old.enum_name new.enum_name)) ≡ false))
unfolding ensure_field_compatible
compatible_iff old new = rejects_iff _ _ _ _ _ _

conjuncts :
    (a b c d e f : Bool)
    → not (a && b && c && d && e && f) ≡ false
    → (a ≡ true) × (b ≡ true) × (c ≡ true) × (d ≡ true) × (e ≡ true) × (f ≡ true)
conjuncts a b c d e f h = ground arith

conjoined :
    (a b c d e f : Bool)
    → (a ≡ true)
    → (b ≡ true)
    → (c ≡ true)
    → (d ≡ true)
    → (e ≡ true)
    → (f ≡ true)
    → not (a && b && c && d && e && f) ≡ false
conjoined a b c d e f = ground arith

guarded : (a b : Bool) → (a && not b) ≡ false → a ≡ true → b ≡ true
guarded a b h k = ground arith

unguarded : (a b : Bool) → (a ≡ true → b ≡ true) → (a && not b) ≡ false
unguarded true b k = ground (arith, k refl)
unguarded false b k = refl

pub SameField-compatible :
    (old new : Field) → ensure_field_compatible old new ≡ ok tt → SameField old new
SameField-compatible old new h =
    let (a, b, c) = (compatible_iff old new).0 h in
    let bits = conjuncts _ _ _ _ _ _ a in
    record {
      of_name = (bytes_equal_iff old.name new.name).0 bits.0;
      of_kind = (==_iff _ _).0 bits.1;
      of_cardinality = (==_iff _ _).0 bits.2;
      of_presence = (same_flag_iff _ _).0 bits.3;
      of_map = (same_flag_iff _ _).0 bits.4;
      of_oneof = (bytes_equal_iff _ _).0 bits.5;
      of_message = λ m. (bytes_equal_iff _ _).0 (guarded _ _ b m);
      of_enum = λ m. (bytes_equal_iff _ _).0 (guarded _ _ c m);
    }

pub compatible-SameField :
    (old new : Field) → SameField old new → ensure_field_compatible old new ≡ ok tt
compatible-SameField old new s = (compatible_iff old new).1 (
  conjoined _ _ _ _ _ _ ((bytes_equal_iff _ _).1 s.of_name) ((==_iff _ _).1 s.of_kind)
      ((==_iff _ _).1 s.of_cardinality) ((same_flag_iff _ _).1 s.of_presence)
      ((same_flag_iff _ _).1 s.of_map) ((bytes_equal_iff _ _).1 s.of_oneof),
  unguarded _ _ (λ m. (bytes_equal_iff _ _).1 (s.of_message m)),
  unguarded _ _ (λ m. (bytes_equal_iff _ _).1 (s.of_enum m)),
)

-- What a lookup finds has the number or the name that was looked up.
pub find_field-compatible :
    (fs gs : List Field) (n : ℕ) {f : Field}
    → ensure_fields_compatible fs gs ≡ ok tt
    → find_field fs n ≡ some f
    → (g : Field) × (find_field gs n ≡ some g) × (ensure_field_compatible f g ≡ ok tt)
unfolding find_field ensure_fields_compatible
find_field-compatible [] gs n h k = absurd (cc)
find_field-compatible (f ∷ fs) gs n h k =
    let (g, found, h₁) = require-eq-ok _ (find_field gs f.number) h in
    let (same, h₂) = checked-eq-ok (ensure_field_compatible f g) _ h₁ in
    elim (search-cases (f.number == n) f (find_field fs n) k) [
      | inl (e, i) ↦ (
        g,
        ap (find_field gs) (sym ((==_iff f.number n).0 e)) ∙ found,
        ap (λ x. ensure_field_compatible x g) (sym i) ∙ same,
      )
      | inr (e, r) ↦ find_field-compatible fs gs n h₂ r
    ]

pub find_enum_value-compatible :
    (vs ws : List EnumValue) (n : ℤ) {v : EnumValue}
    → ensure_enum_values_compatible vs ws ≡ ok tt
    → find_enum_value vs n ≡ some v
    → (w : EnumValue) × (find_enum_value ws n ≡ some w) × (bytes_equal w.name v.name ≡ true)
unfolding find_enum_value ensure_enum_values_compatible
find_enum_value-compatible [] ws n h k = absurd (cc)
find_enum_value-compatible (v ∷ vs) ws n h k =
    let (w, found, h₁) = require-eq-ok _ (find_enum_value ws v.number) h in
    let (same, h₂) = reject-eq-ok (not (bytes_equal w.name v.name)) _ _ h₁ in
    elim (search-cases (eq_ℤ v.number n) v (find_enum_value vs n) k) [
      | inl (e, i) ↦ (
        w,
        ap (find_enum_value ws) (sym ((eq_ℤ_iff v.number n).0 e)) ∙ found,
        ap (λ x. bytes_equal w.name x.name) (sym i) ∙ ground (arith, same),
      )
      | inr (e, r) ↦ find_enum_value-compatible vs ws n h₂ r
    ]

pub find_enum-compatible :
    (es ds : List Enum) (name : Bytes) {e : Enum}
    → ensure_enums_compatible es ds ≡ ok tt
    → find_enum es name ≡ some e
    → (d : Enum) × (find_enum ds name ≡ some d)
      × (ensure_enum_values_compatible e.enum_values d.enum_values ≡ ok tt)
unfolding find_enum ensure_enums_compatible
find_enum-compatible [] ds name h k = absurd (cc)
find_enum-compatible (e ∷ es) ds name h k =
    let (d, found, h₁) = require-eq-ok _ (find_enum ds e.name) h in
    let (same, h₂) =
      checked-eq-ok (ensure_enum_values_compatible e.enum_values d.enum_values) _ h₁ in
    elim (search-cases (bytes_equal e.name name) e (find_enum es name) k) [
      | inl (b, i) ↦ (
        d,
        ap (find_enum ds) (sym ((bytes_equal_iff e.name name).0 b)) ∙ found,
        ap (λ x. ensure_enum_values_compatible (Enum.enum_values x) d.enum_values) (sym i) ∙ same,
      )
      | inr (b, r) ↦ find_enum-compatible es ds name h₂ r
    ]

pub find_message-compatible :
    (ms ns : Messages) (name : Bytes) {m : Message}
    → ensure_messages_compatible ms ns ≡ ok tt
    → find_message ms name ≡ some m
    → (n : Message) × (find_message ns name ≡ some n) × (ensure_message_compatible m n ≡ ok tt)
unfolding find_message ensure_messages_compatible
find_message-compatible no_messages ns name h k = absurd (cc)
find_message-compatible (and_message m ms) ns name h k =
    let (n, found, h₁) = require-eq-ok _ (find_message ns (name_of m)) h in
    let (same, h₂) = checked-eq-ok (ensure_message_compatible m n) _ h₁ in
    elim (search-cases (bytes_equal (name_of m) name) m (find_message ms name) k) [
      | inl (b, i) ↦ (
        n,
        ap (find_message ns) (sym ((bytes_equal_iff (name_of m) name).0 b)) ∙ found,
        ap (λ x. ensure_message_compatible x n) (sym i) ∙ same,
      )
      | inr (b, r) ↦ find_message-compatible ms ns name h₂ r
    ]
