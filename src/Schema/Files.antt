-- ===== src/Schema/Files.antt =====
-- internal/schema/registry.go: the files that a schema needs, and their order.
pub mod Order
pub mod Sorted
use kora_db.Base.{
  ℕ, zero, suc, Bytes, Bool, true, false, ◌||◌, Option, none, some, List, [], ◌∷◌, ◌++◌,
  bytes_equal, length, if◌then◌else◌, bytes_less,
}
use kora_db.Storage.Laws.{lookup}

-- descriptorpb.FileDescriptorProto: its path, the paths that it imports, and the rest of it.
pub record FileProto : Type 0 where
  pub path : Bytes
  pub dependencies : List Bytes
  pub body : Bytes

-- A map from paths to files.
abbrev pub FileProtos : Type 0
FileProtos = List (Bytes × FileProto)

-- m[k] = v
unfoldable pub assign {ℓ} : {V : Type ℓ} → Bytes → V → List (Bytes × V) → List (Bytes × V)
assign k v [] = (k, v) ∷ []
assign k v ((j, w) ∷ m) =
    let rest = assign k v m in if bytes_equal j k then (j, v) ∷ m else (j, w) ∷ rest

abbrev pub is_present {ℓ} : {V : Type ℓ} → Option V → Bool
is_present none = false
is_present (some v) = true

-- protoreflect.FileDescriptor: a file, as ToFileDescriptorProto writes it, with the files it imports.
mutual
  pub data Linked : Type 0 where
    linked : FileProto → Imports → Linked

  pub data Imports : Type 0 where
    no_imports : Imports
    and_import : Linked → Imports → Imports

-- collectFiles, and its loop over the imports.
unfoldable mutual
  pub collect_files : Linked → FileProtos → FileProtos
  collect_files (linked file imports) out =
      let more = collect_imports imports (assign file.path file out) in
      if is_present (lookup file.path out) then out else more

  pub collect_imports : Imports → FileProtos → FileProtos
  collect_imports no_imports out = out
  collect_imports (and_import file files) out = collect_imports files (collect_files file out)

abbrev pub member : Bytes → List Bytes → Bool
member path [] = false
member path (p ∷ ps) = bytes_equal p path || member path ps

-- The variables that `visit` captures; `none` is a visit that ran out of fuel.
pub record Visits : Type 0 where
  pub visited : List Bytes
  pub ordered : List FileProto

abbrev pub and_then {ℓ} : {A : Type ℓ} → Option A → (A → Option A) → Option A
and_then none f = none
and_then (some a) f = f a

abbrev pub mark : Bytes → Visits → Visits
mark path s = record { visited = path ∷ s.visited; ordered = s.ordered }

abbrev pub place : FileProto → Visits → Visits
place file s = record { visited = s.visited; ordered = s.ordered ++ file ∷ [] }

-- sort.Strings on the keys of the map.
unfoldable pub insert_path : Bytes → List Bytes → List Bytes
insert_path p [] = p ∷ []
insert_path p (q ∷ qs) =
    let rest = insert_path p qs in if bytes_less q p then q ∷ rest else p ∷ q ∷ qs

unfoldable pub sorted_paths : FileProtos → List Bytes
sorted_paths [] = []
sorted_paths ((p, file) ∷ m) = insert_path p (sorted_paths m)

-- A loop of `visit`, over the dependencies or over the keys.
abbrev pub loop : (Bytes → Visits → Option Visits) → List Bytes → Visits → Option Visits
loop visit [] s = some s
loop visit (p ∷ ps) s = and_then (visit p s) (loop visit ps)

-- A path that is in the map: its dependencies, then the file itself.
abbrev pub expand : (Bytes → Visits → Option Visits) → Option FileProto → Visits → Option Visits
expand visit none s = some s
expand visit (some file) s = and_then (loop visit file.dependencies s) λ s'. some (place file s')

module _ (m : FileProtos) where
  unfoldable pub visit : ℕ → Bytes → Visits → Option Visits
  visit zero path s = none
  visit (suc fuel) path s =
      let deeper = expand (visit fuel) (lookup path m) (mark path s) in
      if member path s.visited then some s else deeper

  abbrev pub visit_all : Option Visits
  visit_all = loop (visit (suc (length m))) (sorted_paths m) (record { visited = []; ordered = [] })

  unfoldable pub topo_sort : Option (List FileProto)
  topo_sort = elim visit_all [ none ↦ none | some s ↦ some s.ordered ]
