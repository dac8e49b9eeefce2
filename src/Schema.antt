-- ===== src/Schema.antt =====
-- internal/schema/registry.go: the descriptors that the other layers look up.
pub mod Compat
pub mod Files
pub mod Registry
use kora_db.Base.{
  Bytes, Option, none, some, Result, ok, err, no_schemas, message_not_found, not_a_message,
}
use kora_db.Proto.{Proto}

module _ (P : Proto) where
  -- MessageDescriptor; `none` is a nil `files`.
  unfoldable pub message_descriptor : Option P.Files → Bytes → Result P.Descriptor
  message_descriptor none name = err (no_schemas name)
  message_descriptor (some files) name = elim (P.find_descriptor files name) [
    | none ↦ err (message_not_found name)
    | some none ↦ err (not_a_message name)
    | some (some d) ↦ ok d
  ]
