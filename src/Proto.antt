-- ===== src/Proto.antt =====
-- What the program uses of the protobuf runtime (google.golang.org/protobuf), which is outside the
-- repository: descriptors, dynamic messages and their two encodings. `IsProto` is what its
-- documentation says of the calls.
pub mod Sample
use kora_db.Base.{ℕ, ◌^◌, ◌<◌, ◌≡◌, Bool, Bytes, Option, some, Result, ok, err, panic}
use kora_db.Base.Int.{ℤ}
use kora_db.Strconv.{BitSize, bits_32, bits_64, IsInt, IsUint}

-- protoreflect.Kind
pub data Kind : Type 0 where
  bool_kind enum_kind int32_kind sint32_kind uint32_kind int64_kind sint64_kind uint64_kind : Kind
  sfixed32_kind fixed32_kind float_kind sfixed64_kind fixed64_kind double_kind : Kind
  string_kind bytes_kind message_kind group_kind : Kind

-- The groups of kinds that the program's switches tell apart.
pub data KindClass : Type 0 where
  string_class bool_class other_class : KindClass
  int_class uint_class float_class : BitSize → KindClass

abbrev pub class_of : Kind → KindClass
class_of string_kind = string_class
class_of bool_kind = bool_class
class_of int32_kind = int_class bits_32
class_of sint32_kind = int_class bits_32
class_of sfixed32_kind = int_class bits_32
class_of int64_kind = int_class bits_64
class_of sint64_kind = int_class bits_64
class_of sfixed64_kind = int_class bits_64
class_of uint32_kind = uint_class bits_32
class_of fixed32_kind = uint_class bits_32
class_of uint64_kind = uint_class bits_64
class_of fixed64_kind = uint_class bits_64
class_of float_kind = float_class bits_32
class_of double_kind = float_class bits_64
class_of _ = other_class

-- What the program reads of a protoreflect.FieldDescriptor.
pub record FieldDescriptor : Type 0 where
  pub name : Bytes
  pub kind : Kind
  pub is_list : Bool
  pub is_map : Bool

-- protoreflect.Value, over the floats of the platform. `other` is an enum, bytes, a list, a map or
-- a message.
pub data Value (F : Type 0) : Type 0 where
  string : Bytes → Value F
  bool : Bool → Value F
  int : ℤ → Value F
  uint : ℕ → Value F
  float : F → Value F
  other : Value F

module _ {F : Type 0} where
  -- Value.String, Bool, Int, Uint and Float, which panic at a value of another type, except for String,
  -- whose text is then unspecified: the code never asks for it, since a field's value has the field's type.
  unfoldable pub as_string : Value F → Result Bytes
  as_string (string s) = ok s
  as_string _ = err panic

  unfoldable pub as_bool : Value F → Result Bool
  as_bool (bool b) = ok b
  as_bool _ = err panic

  unfoldable pub as_int : Value F → Result ℤ
  as_int (int z) = ok z
  as_int _ = err panic

  unfoldable pub as_uint : Value F → Result ℕ
  as_uint (uint n) = ok n
  as_uint _ = err panic

  unfoldable pub as_float : Value F → Result F
  as_float (float x) = ok x
  as_float _ = err panic

  -- A value has the type, and the range, that its kind says.
  abbrev pub HasClass : KindClass → Value F → Type 0
  HasClass string_class (string s) = Unit {0}
  HasClass bool_class (bool b) = Unit {0}
  HasClass (int_class b) (int z) = IsInt b z
  HasClass (uint_class b) (uint n) = IsUint b n
  HasClass (float_class b) (float x) = Unit {0}
  HasClass other_class v = Unit {0}
  HasClass _ _ = ⊥

-- The calls of protoreflect, dynamicpb, proto, protojson and protoregistry, and of strconv's floats.
pub record Proto : Type 1 where
  pub Descriptor : Type 0
  pub Message : Type 0
  pub Files : Type 0
  pub Float : Type 0
  -- Fields().ByName
  pub field : Descriptor → Bytes → Option FieldDescriptor
  -- the Descriptor of a message, and Get
  pub descriptor : Message → Descriptor
  pub value : Message → FieldDescriptor → Value Float
  -- proto.Marshal and proto.Unmarshal, into a message of the descriptor
  pub marshal : Message → Result Bytes
  pub unmarshal : Descriptor → Bytes → Result Message
  -- protojson
  pub json_marshal : Message → Result Bytes
  pub json_unmarshal : Descriptor → Bytes → Result Message
  -- FindDescriptorByName: `none` is its error, and the inner `none` is no message type
  pub find_descriptor : Files → Bytes → Option (Option Descriptor)
  pub parse_float : BitSize → Bytes → Result Float
  pub float_less : Float → Float → Bool

pub record IsProto (P : Proto) : Type 0 where
  -- the field that ByName finds has that name
  pub name-field :
      (d : P.Descriptor) (name : Bytes) (f : FieldDescriptor)
      → P.field d name ≡ some f
      → f.name ≡ name
  -- Get returns a value of the field's type, unless the field is a list or a map
  pub value-HasClass :
      (m : P.Message) (name : Bytes) (f : FieldDescriptor)
      → P.field (P.descriptor m) name ≡ some f
      → f.is_list ≡ Bool.false
      → f.is_map ≡ Bool.false
      → HasClass (class_of f.kind) (P.value m f)
  -- both decoders fill a new message of the descriptor
  pub descriptor-unmarshal :
      (d : P.Descriptor) (wire : Bytes) (m : P.Message)
      → P.unmarshal d wire ≡ ok m
      → P.descriptor m ≡ d
  pub descriptor-json_unmarshal :
      (d : P.Descriptor) (json : Bytes) (m : P.Message)
      → P.json_unmarshal d json ≡ ok m
      → P.descriptor m ≡ d
  -- decoding what was encoded gives the message back (equality of messages is proto.Equal)
  pub unmarshal-marshal :
      (m : P.Message) (wire : Bytes)
      → P.marshal m ≡ ok wire
      → P.unmarshal (P.descriptor m) wire ≡ ok m
