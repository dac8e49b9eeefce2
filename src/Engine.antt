-- ===== src/Engine.antt =====
-- internal/engine: the document engine. `Values` is values.go, `Indexing` is index.go, and the other
-- children are the parts of engine.go.
pub mod Values
pub mod Meta
pub mod Keys
pub mod Indexing
pub mod Collections
pub mod Documents
