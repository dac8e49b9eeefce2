-- ===== src/Schema/Compat/Chain.antt =====
-- What an accepted chain of schema versions keeps: every message at every path of names, its fields
-- and its enum values.
use kora_db.Base.Int.{ℤ}
use kora_db.Base.{
  enum_value_changed, ℕ, ◌==◌, ◌||◌, ◌≡◌, sym, ap, ◌∙◌, Bytes, List, [], ◌∷◌, Option, none, some,
  ok, checked-eq-ok, checked-ok, bytes_equal, bytes_equal_iff, arith, true, false, not, reject,
  reject-eq-ok, refl,
}
use kora_db.Engine.Meta.{require-eq-ok, require-ok}
use kora_db.Proto.{Kind}
use kora_db.Index.{is_message}
use kora_db.Schema.Compat.{
  kind_number, is_enum, Field, EnumValue, Enum, Message, message, Messages, no_messages,
  and_message, File, name_of, fields_of, messages_of, enums_of, find_message, find_field, find_enum,
  find_enum_value, ensure_field_compatible, ensure_fields_compatible, ensure_enum_values_compatible,
  ensure_enums_compatible, ensure_message_compatible, ensure_messages_compatible,
  ensure_files_compatible,
}
use kora_db.Schema.Compat.Keeps.{
  SameField, SameField-compatible, compatible-SameField, find_field-compatible,
  find_enum_value-compatible, find_enum-compatible, find_message-compatible,
}

abbrev and_then : Option Message → (Message → Option Message) → Option Message
and_then none f = none
and_then (some m) f = f m

and_then-eq-some :
    (o : Option Message) (f : Message → Option Message) {m : Message}
    → and_then o f ≡ some m
    → (n : Message) × (o ≡ some n) × (f n ≡ some m)
and_then-eq-some none f h = absurd (cc)
and_then-eq-some (some n) f h = (n, refl, h)

-- The message at a path of names: the first among the given ones, each next one nested in the last.
unfoldable pub descend : Messages → Bytes → List Bytes → Option Message
descend ms name [] = find_message ms name
descend ms name (next ∷ path) =
    and_then (find_message ms name) λ m. descend (messages_of m) next path

message-parts :
    (m n : Message)
    → ensure_message_compatible m n ≡ ok tt
    → (ensure_fields_compatible (fields_of m) (fields_of n) ≡ ok tt)
      × (ensure_messages_compatible (messages_of m) (messages_of n) ≡ ok tt)
      × (ensure_enums_compatible (enums_of m) (enums_of n) ≡ ok tt)
unfolding ensure_message_compatible
message-parts (message name full_name fields nested enums) n h =
    let (f, h₁) = checked-eq-ok (ensure_fields_compatible fields (fields_of n)) _ h in
    let (g, k) = checked-eq-ok (ensure_messages_compatible nested (messages_of n)) _ h₁ in (f, g, k)

-- What one version of a message keeps of another.
pub record Kept (m n : Message) : Type 0 where
  pub of_fields :
      (number : ℕ) (f : Field)
      → find_field (fields_of m) number ≡ some f
      → (g : Field) × (find_field (fields_of n) number ≡ some g) × SameField f g
  pub of_enums :
      (name : Bytes) (number : ℤ) (e : Enum) (v : EnumValue)
      → find_enum (enums_of m) name ≡ some e
      → find_enum_value e.enum_values number ≡ some v
      → (d : Enum) × (w : EnumValue) × (find_enum (enums_of n) name ≡ some d)
        × (find_enum_value d.enum_values number ≡ some w)
        × (w.name ≡ v.name)

compatible-Kept : (m n : Message) → ensure_message_compatible m n ≡ ok tt → Kept m n
compatible-Kept m n h =
    let (a, b, c) = message-parts m n h in
    record {
      of_fields = λ number f found.
          let (g, there, same) = find_field-compatible (fields_of m) (fields_of n) number a found in
          (g, there, SameField-compatible f g same);
      of_enums = λ name number e v found listed.
          let (d, there, same) = find_enum-compatible (enums_of m) (enums_of n) name c found in
          let (w, valued, named) =
            find_enum_value-compatible e.enum_values d.enum_values number same listed in
          (d, w, there, valued, (bytes_equal_iff w.name v.name).0 named);
    }

descend-compatible :
    (ms ns : Messages) (name : Bytes) (path : List Bytes) {m : Message}
    → ensure_messages_compatible ms ns ≡ ok tt
    → descend ms name path ≡ some m
    → (n : Message) × (descend ns name path ≡ some n) × (ensure_message_compatible m n ≡ ok tt)
unfolding descend
descend-compatible ms ns name [] h k = find_message-compatible ms ns name h k
descend-compatible ms ns name (next ∷ path) h k =
    let (m, there, rest) = and_then-eq-some (find_message ms name) _ k in
    let (n, found, same) = find_message-compatible ms ns name h there in
    let (o, below, kept) =
      descend-compatible (messages_of m) (messages_of n) next path (message-parts m n same).1
        rest in
    (o, ap (λ x. and_then x λ y. descend (messages_of y) next path) found ∙ below, kept)

-- If a new version of a file is compatible with the old one, the message at each path of names in the old
-- version is there in the new one, with the contract of its fields and the names of its enum values.
pub files-keep :
    (old new : File) (name : Bytes) (path : List Bytes) (m : Message)
    → ensure_files_compatible old new ≡ ok tt
    → descend old.messages name path ≡ some m
    → (n : Message) × (descend new.messages name path ≡ some n) × Kept m n
unfolding ensure_files_compatible
files-keep old new name path m h k =
    let (a, b) = checked-eq-ok (ensure_messages_compatible old.messages new.messages) _ h in
    let (n, there, same) = descend-compatible old.messages new.messages name path a k in
    (n, there, compatible-Kept m n same)

is_message-number : (k : Kind) → is_message k ≡ ((kind_number k == 10) || (kind_number k == 11))
is_message-number k = ground arith

is_enum-number : (k : Kind) → is_enum k ≡ (kind_number k == 14)
is_enum-number k = ground arith

is_message_kind : (k l : Kind) → kind_number k ≡ kind_number l → is_message k ≡ is_message l
is_message_kind k l h =
    is_message-number k ∙ ap (λ n. (n == 10) || (n == 11)) h ∙ sym (is_message-number l)

is_enum_kind : (k l : Kind) → kind_number k ≡ kind_number l → is_enum k ≡ is_enum l
is_enum_kind k l h = is_enum-number k ∙ ap (λ n. n == 14) h ∙ sym (is_enum-number l)

SameField-trans : (f g h : Field) → SameField f g → SameField g h → SameField f h
SameField-trans f g h s t = record {
  of_name = s.of_name ∙ t.of_name;
  of_kind = s.of_kind ∙ t.of_kind;
  of_cardinality = s.of_cardinality ∙ t.of_cardinality;
  of_presence = s.of_presence ∙ t.of_presence;
  of_map = s.of_map ∙ t.of_map;
  of_oneof = s.of_oneof ∙ t.of_oneof;
  of_message =
      λ m. s.of_message m ∙ t.of_message (sym (is_message_kind f.kind g.kind s.of_kind) ∙ m);
  of_enum = λ m. s.of_enum m ∙ t.of_enum (sym (is_enum_kind f.kind g.kind s.of_kind) ∙ m);
}

fields_trans :
    (fs gs hs : List Field)
    → ensure_fields_compatible fs gs ≡ ok tt
    → ensure_fields_compatible gs hs ≡ ok tt
    → ensure_fields_compatible fs hs ≡ ok tt
unfolding ensure_fields_compatible
fields_trans [] gs hs h k = refl
fields_trans (f ∷ fs) gs hs h k =
    let (g, found, h₁) = require-eq-ok _ (find_field gs f.number) h in
    let (same, h₂) = checked-eq-ok (ensure_field_compatible f g) _ h₁ in
    let (i, there, again) = find_field-compatible gs hs f.number k found in
    require-ok _ _ there (
      checked-ok
        (compatible-SameField f i
          (SameField-trans f g i (SameField-compatible f g same) (SameField-compatible g i again)))
        (fields_trans fs gs hs h₂ k))

same_name_trans :
    (a b c : Bytes)
    → not (bytes_equal b a) ≡ false
    → bytes_equal c b ≡ true
    → not (bytes_equal c a) ≡ false
same_name_trans a b c h k =
    grind (arith, bytes_equal_iff b a, bytes_equal_iff c b, bytes_equal_iff c a)

enum_values_trans :
    (us vs ws : List EnumValue)
    → ensure_enum_values_compatible us vs ≡ ok tt
    → ensure_enum_values_compatible vs ws ≡ ok tt
    → ensure_enum_values_compatible us ws ≡ ok tt
unfolding ensure_enum_values_compatible
enum_values_trans [] vs ws h k = refl
enum_values_trans (u ∷ us) vs ws h k =
    let (v, found, h₁) = require-eq-ok _ (find_enum_value vs u.number) h in
    let (same, h₂) = reject-eq-ok (not (bytes_equal v.name u.name)) _ _ h₁ in
    let (w, there, again) = find_enum_value-compatible vs ws u.number k found in
    require-ok _ _ there (
      checked-ok
        (ap (λ x. reject x (enum_value_changed u.full_name))
          (same_name_trans u.name v.name w.name same again))
        (enum_values_trans us vs ws h₂ k))

enums_trans :
    (xs ys zs : List Enum)
    → ensure_enums_compatible xs ys ≡ ok tt
    → ensure_enums_compatible ys zs ≡ ok tt
    → ensure_enums_compatible xs zs ≡ ok tt
unfolding ensure_enums_compatible
enums_trans [] ys zs h k = refl
enums_trans (a ∷ xs) ys zs h k =
    let (b, found, h₁) = require-eq-ok _ (find_enum ys a.name) h in
    let (same, h₂) =
      checked-eq-ok (ensure_enum_values_compatible a.enum_values b.enum_values) _ h₁ in
    let (c, there, again) = find_enum-compatible ys zs a.name k found in
    require-ok _ _ there (
      checked-ok (enum_values_trans a.enum_values b.enum_values c.enum_values same again)
        (enums_trans xs ys zs h₂ k))

mutual
  unfolding ensure_message_compatible ensure_messages_compatible

  message_trans :
      (a b c : Message)
      → ensure_message_compatible a b ≡ ok tt
      → ensure_message_compatible b c ≡ ok tt
      → ensure_message_compatible a c ≡ ok tt
  message_trans (message name full_name fields nested enums) b c h k =
      let (f, g, e) = message-parts (message name full_name fields nested enums) b h in
      let (f', g', e') = message-parts b c k in
      checked-ok (fields_trans fields (fields_of b) (fields_of c) f f') (
        checked-ok (messages_trans nested (messages_of b) (messages_of c) g g')
          (enums_trans enums (enums_of b) (enums_of c) e e'))

  messages_trans :
      (xs ys zs : Messages)
      → ensure_messages_compatible xs ys ≡ ok tt
      → ensure_messages_compatible ys zs ≡ ok tt
      → ensure_messages_compatible xs zs ≡ ok tt
  messages_trans no_messages ys zs h k = refl
  messages_trans (and_message a xs) ys zs h k =
      let (b, found, h₁) = require-eq-ok _ (find_message ys (name_of a)) h in
      let (same, h₂) = checked-eq-ok (ensure_message_compatible a b) _ h₁ in
      let (c, there, again) = find_message-compatible ys zs (name_of a) k found in
      require-ok _ _ there
        (checked-ok (message_trans a b c same again) (messages_trans xs ys zs h₂ k))

-- If a second version of a file is compatible with the first, and a third one with the second, then the
-- third one is compatible with the first.
pub files_compatible_trans :
    (a b c : File)
    → ensure_files_compatible a b ≡ ok tt
    → ensure_files_compatible b c ≡ ok tt
    → ensure_files_compatible a c ≡ ok tt
unfolding ensure_files_compatible
files_compatible_trans a b c h k =
    let (m, e) = checked-eq-ok (ensure_messages_compatible a.messages b.messages) _ h in
    let (m', e') = checked-eq-ok (ensure_messages_compatible b.messages c.messages) _ k in
    checked-ok (messages_trans a.messages b.messages c.messages m m')
      (enums_trans a.enums b.enums c.enums e e')
