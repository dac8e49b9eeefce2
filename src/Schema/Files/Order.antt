-- ===== src/Schema/Files/Order.antt =====
-- The sort of the files by their imports always ends.
use kora_db.Base.{
  ℕ, zero, suc, ◌≤◌, ◌<◌, ◌≡◌, refl, ap, ◌∙◌, Bytes, false, Option, some, List, [], ◌∷◌,
  bytes_equal, bytes_equal_iff, length, if◌then◌else◌, Bool-cases, Option-cases, inl, inr, arith,
  search-cases,
}
use kora_db.Storage.Laws.{lookup}
use kora_db.Schema.Files.{
  FileProto, FileProtos, member, Visits, and_then, mark, place, loop, visit, topo_sort,
  sorted_paths,
}

-- The number of entries of the map that are not visited.
abbrev pub unvisited : List Bytes → FileProtos → ℕ
unvisited visited [] = 0
unvisited visited ((p, file) ∷ m) =
    let n = unvisited visited m in if member p visited then n else suc n

unvisited-length : (visited : List Bytes) (m : FileProtos) → unvisited visited m ≤ length m
unvisited-length visited [] = omega arith
unvisited-length visited ((p, file) ∷ m) = ground (arith, unvisited-length visited m)

unvisited_mark :
    (path : Bytes) (visited : List Bytes) (m : FileProtos)
    → unvisited (path ∷ visited) m ≤ unvisited visited m
unvisited_mark path visited [] = omega arith
unvisited_mark path visited ((p, file) ∷ m) = ground (arith, unvisited_mark path visited m)

-- Marking an entry of the map leaves one entry less.
unvisited-present :
    (path : Bytes) (visited : List Bytes) (m : FileProtos) {file : FileProto}
    → member path visited ≡ false
    → lookup path m ≡ some file
    → unvisited (path ∷ visited) m < unvisited visited m
unvisited-present path visited [] h k = absurd (cc)
unvisited-present path visited ((p, file) ∷ m) h k =
    elim (search-cases (bytes_equal p path) file (lookup path m) k) [
      | inl (e, i) ↦
          let same = (bytes_equal_iff p path).0 e in
          ground (
            arith,
            bytes_equal_iff path p,
            unvisited_mark path visited m,
            ap (λ x. member x visited) same ∙ h,
          )
      | inr (e, r) ↦ ground (
        arith,
        unvisited-present path visited m h r,
        unvisited_mark path visited m,
        bytes_equal_iff path p,
        bytes_equal_iff p path,
      )
    ]

module _ (m : FileProtos) where
  -- A visit that ends leaves no more of the map unvisited.
  Ends : Option Visits → Visits → Type 0
  Ends o s = (s' : Visits) × (o ≡ some s') × (unvisited s'.visited m ≤ unvisited s.visited m)

  loop-Ends :
      (fuel : ℕ) (go : Bytes → Visits → Option Visits)
      → ((path : Bytes) (s : Visits) → unvisited s.visited m < fuel → Ends (go path s) s)
      → (paths : List Bytes) (s : Visits) → unvisited s.visited m < fuel
      → Ends (loop go paths s) s
  unfolding Ends
  loop-Ends fuel go each [] s h = (s, refl, omega arith)
  loop-Ends fuel go each (p ∷ ps) s h =
      let (s', e, k) = each p s h in
      let (s'', e', k') = loop-Ends fuel go each ps s' (omega arith) in
      (s'', ap (λ o. and_then o (loop go ps)) e ∙ e', omega arith)

  visit-Ends :
      (fuel : ℕ) (path : Bytes) (s : Visits)
      → unvisited s.visited m < fuel
      → Ends (visit m fuel path s) s
  unfolding Ends visit
  visit-Ends zero path s h = absurd (omega arith)
  visit-Ends (suc fuel) path s h = elim (Bool-cases (member path s.visited)) [
    | inl e ↦ (s, rw e refl, omega arith)
    | inr e ↦ elim (Option-cases (lookup path m)) [
      | inl e' ↦ (mark path s, rw (e, e') refl, unvisited_mark path s.visited m)
      | inr (file, e') ↦
          let (s', i, k) =
            loop-Ends fuel (visit m fuel) (visit-Ends fuel) file.dependencies (mark path s)
              (omega (arith, unvisited-present path s.visited m e e')) in
          (
            place file s',
            rw (e, e') (ap (λ o. and_then o λ x. some (place file x)) i),
            omega (arith, k, unvisited_mark path s.visited m),
          )
    ]
  ]

  -- For every map, with imports in cycles too, topo_sort returns a list.
  pub topo_sort-ends : (files : List FileProto) × (topo_sort m ≡ some files)
  unfolding Ends topo_sort
  topo_sort-ends =
      let (s, e, k) =
        loop-Ends (suc (length m)) (visit m (suc (length m))) (visit-Ends (suc (length m)))
          (sorted_paths m) (record { visited = []; ordered = [] })
          (omega (arith, unvisited-length [] m)) in
      (s.ordered, rw (topo_sort, e) refl)
