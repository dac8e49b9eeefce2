-- ===== src/Schema/Compat.antt =====
-- internal/schema/registry.go: the test that a new version of a schema keeps the old one's contract.
-- Descriptors are data: what the test reads of a protoreflect file, message, field and enum.
pub mod Keeps
pub mod Chain
use kora_db.Base.Int.{ℤ, eq_ℤ}
use kora_db.Base.{
  ℕ, ◌==◌, Bool, true, false, not, ◌&&◌, Bytes, Option, none, some, List, [], ◌∷◌, Error, Result,
  ok, err, reject, ◌>>=◌, ◌>>◌, bytes_equal, if◌then◌else◌, message_removed, field_removed,
  field_changed, message_type_changed, enum_type_changed, enum_removed, enum_value_changed,
}
use kora_db.Proto.{
  Kind, bool_kind, enum_kind, int32_kind, sint32_kind, uint32_kind, int64_kind, sint64_kind,
  uint64_kind, sfixed32_kind, fixed32_kind, float_kind, sfixed64_kind, fixed64_kind, double_kind,
  string_kind, bytes_kind, message_kind, group_kind,
}
use kora_db.Index.{is_message}
use kora_db.Engine.Meta.{require}

-- protoreflect.Cardinality
pub data Cardinality : Type 0 where
  optional required repeated : Cardinality

-- The numbers of the protobuf types.
abbrev pub kind_number : Kind → ℕ
kind_number double_kind = 1
kind_number float_kind = 2
kind_number int64_kind = 3
kind_number uint64_kind = 4
kind_number int32_kind = 5
kind_number fixed64_kind = 6
kind_number fixed32_kind = 7
kind_number bool_kind = 8
kind_number string_kind = 9
kind_number group_kind = 10
kind_number message_kind = 11
kind_number bytes_kind = 12
kind_number uint32_kind = 13
kind_number enum_kind = 14
kind_number sfixed32_kind = 15
kind_number sfixed64_kind = 16
kind_number sint32_kind = 17
kind_number sint64_kind = 18

abbrev pub cardinality_number : Cardinality → ℕ
cardinality_number optional = 1
cardinality_number required = 2
cardinality_number repeated = 3

-- A field; the full names of its message and its enum are blank where it has none, and so is the name
-- of its oneof.
pub record Field : Type 0 where
  pub number : ℕ
  pub name : Bytes
  pub full_name : Bytes
  pub kind : Kind
  pub cardinality : Cardinality
  pub has_presence : Bool
  pub is_map : Bool
  pub oneof_name : Bytes
  pub message_name : Bytes
  pub enum_name : Bytes

pub record EnumValue : Type 0 where
  pub number : ℤ
  pub name : Bytes
  pub full_name : Bytes

pub record Enum : Type 0 where
  pub name : Bytes
  pub full_name : Bytes
  pub enum_values : List EnumValue

-- A message: its name, its full name, its fields, the messages and the enums that it declares.
mutual
  pub data Message : Type 0 where
    message : Bytes → Bytes → List Field → Messages → List Enum → Message

  pub data Messages : Type 0 where
    no_messages : Messages
    and_message : Message → Messages → Messages

pub record File : Type 0 where
  pub messages : Messages
  pub enums : List Enum

abbrev pub name_of : Message → Bytes
name_of (message name full_name fields nested enums) = name

abbrev pub fields_of : Message → List Field
fields_of (message name full_name fields nested enums) = fields

abbrev pub messages_of : Message → Messages
messages_of (message name full_name fields nested enums) = nested

abbrev pub enums_of : Message → List Enum
enums_of (message name full_name fields nested enums) = enums

-- ByName and ByNumber of the descriptor lists.
unfoldable pub find_message : Messages → Bytes → Option Message
find_message no_messages name = none
find_message (and_message m ms) name =
    let rest = find_message ms name in if bytes_equal (name_of m) name then some m else rest

unfoldable pub find_field : List Field → ℕ → Option Field
find_field [] number = none
find_field (f ∷ fs) number =
    let rest = find_field fs number in if f.number == number then some f else rest

unfoldable pub find_enum : List Enum → Bytes → Option Enum
find_enum [] name = none
find_enum (e ∷ es) name =
    let rest = find_enum es name in if bytes_equal e.name name then some e else rest

unfoldable pub find_enum_value : List EnumValue → ℤ → Option EnumValue
find_enum_value [] number = none
find_enum_value (v ∷ vs) number =
    let rest = find_enum_value vs number in if eq_ℤ v.number number then some v else rest

abbrev pub same_flag : Bool → Bool → Bool
same_flag true b = b
same_flag false b = not b

abbrev pub is_enum : Kind → Bool
is_enum enum_kind = true
is_enum _ = false

-- The tests of ensureMessageCompatible on one field, negated.
abbrev pub same_contract : Field → Field → Bool
same_contract old new =
    bytes_equal old.name new.name
    && kind_number old.kind == kind_number new.kind
    && cardinality_number old.cardinality == cardinality_number new.cardinality
    && same_flag old.has_presence new.has_presence
    && same_flag old.is_map new.is_map
    && bytes_equal old.oneof_name new.oneof_name

unfoldable pub ensure_field_compatible : Field → Field → Result (Unit {0})
ensure_field_compatible old new = do
  reject (not (same_contract old new)) (field_changed old.full_name)
  reject (is_message old.kind && not (bytes_equal old.message_name new.message_name))
      (message_type_changed old.full_name)
  reject (is_enum old.kind && not (bytes_equal old.enum_name new.enum_name))
      (enum_type_changed old.full_name)

-- Its loop over the fields.
unfoldable pub ensure_fields_compatible : List Field → List Field → Result (Unit {0})
ensure_fields_compatible [] new = ok tt
ensure_fields_compatible (f ∷ fs) new = do
  g ← require (field_removed f.full_name) (find_field new f.number)
  ensure_field_compatible f g
  ensure_fields_compatible fs new

unfoldable pub ensure_enum_values_compatible : List EnumValue → List EnumValue → Result (Unit {0})
ensure_enum_values_compatible [] new = ok tt
ensure_enum_values_compatible (v ∷ vs) new = do
  w ← require (enum_value_changed v.full_name) (find_enum_value new v.number)
  reject (not (bytes_equal w.name v.name)) (enum_value_changed v.full_name)
  ensure_enum_values_compatible vs new

-- ensureEnumsCompatible
unfoldable pub ensure_enums_compatible : List Enum → List Enum → Result (Unit {0})
ensure_enums_compatible [] new = ok tt
ensure_enums_compatible (e ∷ es) new = do
  e' ← require (enum_removed e.full_name) (find_enum new e.name)
  ensure_enum_values_compatible e.enum_values e'.enum_values
  ensure_enums_compatible es new

abbrev full_name_of : Message → Bytes
full_name_of (message name full_name fields nested enums) = full_name

-- ensureMessageCompatible and ensureMessagesCompatible
unfoldable mutual
  pub ensure_message_compatible : Message → Message → Result (Unit {0})
  ensure_message_compatible (message name full_name fields nested enums) new = do
    ensure_fields_compatible fields (fields_of new)
    ensure_messages_compatible nested (messages_of new)
    ensure_enums_compatible enums (enums_of new)

  pub ensure_messages_compatible : Messages → Messages → Result (Unit {0})
  ensure_messages_compatible no_messages new = ok tt
  ensure_messages_compatible (and_message m ms) new = do
    m' ← require (message_removed (full_name_of m)) (find_message new (name_of m))
    ensure_message_compatible m m'
    ensure_messages_compatible ms new

-- The end of ensureFileCompatible, on the two files that it has resolved.
unfoldable pub ensure_files_compatible : File → File → Result (Unit {0})
ensure_files_compatible old new = do
  ensure_messages_compatible old.messages new.messages
  ensure_enums_compatible old.enums new.enums
