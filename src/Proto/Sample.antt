-- ===== src/Proto/Sample.antt =====
-- A message type in the place of the protobuf runtime, on which the tests run: it shows that the laws
-- of `IsProto` can hold. A message has a name (a string), a quantity (uint32) and a flag (bool); its wire
-- and its JSON are one byte for the flag, one number for the quantity, and the name.
-- It models no code of the repository.
use kora_db.Base.{
  ℕ, ◌^◌, ◌≡◌, refl, Bool, true, false, Bytes, text, Option, none, some, ◌∷◌, Result, ok, err,
  arith, bytes_equal, ok-injective, external, syntax, if◌then◌else◌, ltb, ◌==◌,
}
use kora_db.Strconv.{bits_32, bits_64}
use kora_db.Base.Int.{pos}
use kora_db.Proto.{
  Proto, IsProto, Kind, KindClass, string_kind, uint32_kind, bool_kind, class_of, string_class,
  uint_class, bool_class, int_class, float_class, other_class, FieldDescriptor, Value, string, bool,
  uint, int, float, other, HasClass,
}

pub record Item : Type 0 where
  pub name : Bytes
  pub quantity : ℕ
  pub flag : Bool

abbrev scalar_field : Bytes → Kind → Option FieldDescriptor
scalar_field name kind = some (record { name = name; kind = kind; is_list = false; is_map = false })

abbrev item_field : Bytes → Option FieldDescriptor
item_field name =
    if bytes_equal name (text "name")
    then scalar_field name string_kind
    else if bytes_equal name (text "quantity")
    then scalar_field name uint32_kind
    else if bytes_equal name (text "flag")
    then scalar_field name bool_kind
    else none

abbrev item_value : Item → KindClass → Value (Unit {0})
item_value m string_class = string m.name
item_value m (uint_class b) = uint (if ltb m.quantity (2 ^ 32) then m.quantity else 0)
item_value m bool_class = bool m.flag
item_value m (int_class b) = int (pos 0)
item_value m (float_class b) = float tt
item_value m other_class = other

abbrev encode_item : Item → Result Bytes
encode_item m = ok ((if m.flag then 1 else 0) ∷ m.quantity ∷ m.name)

abbrev decode_item : Bytes → Result Item
decode_item (f ∷ q ∷ name) = ok (record { name = name; quantity = q; flag = f == 1 })
decode_item _ = err (external 4)

abbrev pub sample : Proto
sample = record {
  Descriptor = Unit {0};
  Message = Item;
  Files = Unit {0};
  Float = Unit {0};
  field = λ d name. item_field name;
  descriptor = λ m. tt;
  value = λ m fd. item_value m (class_of fd.kind);
  marshal = encode_item;
  unmarshal = λ d wire. decode_item wire;
  json_marshal = encode_item;
  json_unmarshal = λ d json. decode_item json;
  find_descriptor = λ files name. some (some tt);
  parse_float = λ b s. err syntax;
  float_less = λ x y. false;
}

value-HasClass : (m : Item) (c : KindClass) → HasClass c (item_value m c)
value-HasClass m string_class = tt
value-HasClass m bool_class = tt
value-HasClass m (int_class bits_32) = ground arith
value-HasClass m (int_class bits_64) = ground arith
value-HasClass m (uint_class bits_32) = ground arith
value-HasClass m (uint_class bits_64) = ground arith
value-HasClass m (float_class b) = tt
value-HasClass m other_class = tt

flag-decode :
    (name : Bytes) (q : ℕ) (f : Bool)
    → decode_item ((if f then 1 else 0) ∷ q ∷ name)
      ≡ ok (record { name = name; quantity = q; flag = f })
flag-decode name q true = refl
flag-decode name q false = refl

decode-encode : (m : Item) (wire : Bytes) → encode_item m ≡ ok wire → decode_item wire ≡ ok m
decode-encode m wire h = rw (← ok-injective h) (flag-decode m.name m.quantity m.flag)

pub IsProto-sample : IsProto sample
IsProto-sample = record {
  name-field = λ d name f h. ground arith;
  value-HasClass = λ m name f h l p. value-HasClass m (class_of f.kind);
  descriptor-unmarshal = λ d wire m h. refl;
  descriptor-json_unmarshal = λ d json m h. refl;
  unmarshal-marshal = decode-encode;
}

-- The only string of an item is its name.
pub item_value_string :
    (m : Item) (c : KindClass) (s : Bytes) → item_value m c ≡ string s → m.name ≡ s
item_value_string m string_class s h = cc
item_value_string m bool_class s h = absurd (cc)
item_value_string m (int_class b) s h = absurd (cc)
item_value_string m (uint_class b) s h = absurd (cc)
item_value_string m (float_class b) s h = absurd (cc)
item_value_string m other_class s h = absurd (cc)
