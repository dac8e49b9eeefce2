-- ===== src/Schema/Files/Sorted.antt =====
-- The sort of the files by their imports: every file of the map, each after the files that it imports.
use kora_db.Base.{
  ℕ, zero, suc, ◌≤◌, ◌<◌, ◌≡◌, refl, sym, ap, ◌∙◌, ◌⊎◌, inl, inr, Bytes, Bool, true, false, ◌||◌,
  Option, none, some, List, [], ◌∷◌, ◌++◌, bytes_equal, bytes_equal_iff, bytes_equal_refl, length,
  Bool-cases, Option-cases, arith, All, All-map,
}
use mathlib.Core.Path.{subst}
use kora_db.Storage.Laws.{lookup}
use kora_db.Schema.Files.{
  FileProto, FileProtos, member, Visits, and_then, mark, place, loop, visit, topo_sort, visit_all,
  insert_path, sorted_paths, is_present,
}

abbrev pub placed : Bytes → List FileProto → Bool
placed path [] = false
placed path (f ∷ fs) = bytes_equal f.path path || placed path fs

placed-append :
    (v : Bytes) (fs : List FileProto) (f : FileProto)
    → placed v (fs ++ f ∷ []) ≡ (placed v fs || bytes_equal f.path v)
placed-append v [] f = ground arith
placed-append v (g ∷ fs) f = ground (arith, placed-append v fs f)

member-insert_path :
    (v p : Bytes) (qs : List Bytes) → member v (insert_path p qs) ≡ (bytes_equal p v || member v qs)
unfolding insert_path
member-insert_path v p [] = refl
member-insert_path v p (q ∷ qs) = ground (arith, member-insert_path v p qs)

member-sorted_paths :
    (v : Bytes) (m : FileProtos) → is_present (lookup v m) ≡ true → member v (sorted_paths m) ≡ true
unfolding sorted_paths
member-sorted_paths v [] h = absurd (cc)
member-sorted_paths v ((p, file) ∷ m) h =
    ground (arith, member-insert_path v p (sorted_paths m), member-sorted_paths v m)

and_then-eq-some :
    (o : Option Visits) (f : Visits → Option Visits) {s : Visits}
    → and_then o f ≡ some s
    → (x : Visits) × (o ≡ some x) × (f x ≡ some s)
and_then-eq-some none f h = absurd (cc)
and_then-eq-some (some x) f h = (x, refl, h)

some-injective : {A : Type 0} {a b : A} → some a ≡ some b → a ≡ b
some-injective h = cc

All-units : {A : Type 0} (xs : List A) → All (λ x. Unit {0}) xs
All-units [] = tt
All-units (x ∷ xs) = (tt, All-units xs)

All-member :
    (Q : Bytes → Type 0) (v : Bytes) (ps : List Bytes) → All Q ps → member v ps ≡ true → Q v
All-member Q v [] h k = absurd (cc)
All-member Q v (p ∷ ps) h k = elim (Bool-cases (bytes_equal p v)) [
  | inl same ↦ subst Q ((bytes_equal_iff p v).0 same) h.0
  | inr other ↦ All-member Q v ps h.1 (ground (arith, k))
]

All-both :
    {A : Type 0} (Q R : A → Type 0) (xs : List A) → All Q xs → All R xs → All (λ x. Q x × R x) xs
All-both Q R [] h k = tt
All-both Q R (x ∷ xs) h k = ((h.0, k.0), All-both Q R xs h.1 k.1)

module _ (m : FileProtos) where
  -- A file that a path names is there by the time that the path is needed.
  abbrev pub Available : Bytes → Bool → Type 0
  Available d there = (lookup d m ≡ none) ⊎ (there ≡ true)

  -- Every file stands after the files of the map that it imports.
  abbrev pub InOrder : List Bytes → List FileProto → Type 0
  InOrder seen [] = Unit
  InOrder seen (f ∷ fs) =
      All (λ d. Available d (member d seen)) f.dependencies × InOrder (f.path ∷ seen) fs

  -- What one visit does to the captured variables.
  record Step (s s' : Visits) : Type 0 where
    marks : (v : Bytes) → member v s.visited ≡ true → member v s'.visited ≡ true
    places : (v : Bytes) → placed v s.ordered ≡ true → placed v s'.ordered ≡ true
    added :
        (v : Bytes)
        → is_present (lookup v m) ≡ true
        → member v s'.visited ≡ true
        → (member v s.visited ≡ true) ⊎ (placed v s'.ordered ≡ true)
    sorted : InOrder [] s.ordered → InOrder [] s'.ordered

  Step-refl : (s : Visits) → Step s s
  Step-refl s = record {
    marks = λ v h. h;
    places = λ v h. h;
    added = λ v p h. inl h;
    sorted = λ h. h;
  }

  Step-same : (s s' : Visits) → s ≡ s' → Step s s'
  Step-same s s' e = subst (Step s) e (Step-refl s)

  Step-trans : (s t u : Visits) → Step s t → Step t u → Step s u
  Step-trans s t u a b = record {
    marks = λ v h. b.marks v (a.marks v h);
    places = λ v h. b.places v (a.places v h);
    added = λ v p h. elim (b.added v p h) [
      | inr q ↦ inr q
      | inl q ↦ elim (a.added v p q) [ inl r ↦ inl r | inr r ↦ inr (b.places v r) ]
    ];
    sorted = λ h. b.sorted (a.sorted h);
  }

  -- The visited files of a range of paths have been placed.
  Settled : (Bytes → Type 0) → Visits → Type 0
  Settled Q s =
      (v : Bytes)
      → is_present (lookup v m) ≡ true
      → member v s.visited ≡ true
      → Q v
      → placed v s.ordered ≡ true

  Settled-Step : (Q : Bytes → Type 0) (s s' : Visits) → Settled Q s → Step s s' → Settled Q s'
  unfolding Settled
  Settled-Step Q s s' h a v p k q = elim (a.added v p k) [
    | inl r ↦ a.places v (h v p r q)
    | inr r ↦ r
  ]

  loop-Step :
      (Q : Bytes → Type 0) (go : Bytes → Visits → Option Visits)
      → ((p : Bytes) (s s' : Visits)
          → Q p
          → Settled Q s
          → go p s ≡ some s'
          → Step s s' × (member p s'.visited ≡ true))
      → (paths : List Bytes) (s s' : Visits) → All Q paths
      → Settled Q s
      → loop go paths s ≡ some s'
      → Step s s' × All (λ p. member p s'.visited ≡ true) paths
  loop-Step Q go each [] s s' q h k = (Step-same s s' (some-injective k), tt)
  loop-Step Q go each (p ∷ ps) s s' q h k =
      let (t, k₁, k₂) = and_then-eq-some (go p s) (loop go ps) k in
      let (a, mark_p) = each p s t q.0 h k₁ in
      let (b, rest) = loop-Step Q go each ps t s' q.1 (Settled-Step Q s t h a) k₂ in
      (Step-trans s t s' a b, (b.marks p mark_p, rest))

  Available-or : (d : Bytes) (b c : Bool) → (b ≡ true → c ≡ true) → Available d b → Available d c
  Available-or d b c f (inl e) = inl e
  Available-or d b c f (inr e) = inr (f e)

  Available-if :
      (d : Bytes) (b : Bool) → (is_present (lookup d m) ≡ true → b ≡ true) → Available d b
  Available-if d b f = elim (Option-cases (lookup d m)) [
    | inl e ↦ inl e
    | inr (g, e) ↦ inr (f (ap is_present e))
  ]

  InOrder-place :
      (seen : List Bytes) (fs : List FileProto) (f : FileProto)
      → InOrder seen fs
      → All (λ d. Available d (member d seen || placed d fs)) f.dependencies
      → InOrder seen (fs ++ f ∷ [])
  InOrder-place seen [] f h k =
      (All-map (λ d. Available-or d _ _ λ e. ground (arith, e)) f.dependencies k, tt)
  InOrder-place seen (g ∷ fs) f h k = (
    h.0,
    InOrder-place (g.path ∷ seen) fs f h.1
        (All-map (λ d. Available-or d _ _ λ e. ground (arith, e)) f.dependencies k),
  )

  Step-mark : (p : Bytes) (s : Visits) → lookup p m ≡ none → Step s (mark p s)
  Step-mark p s e = record {
    marks = λ v h. ground (arith, h);
    places = λ v h. h;
    added = λ v h k. inl (unmarked v h k (Bool-cases (bytes_equal p v)));
    sorted = λ h. h;
  }
    where
      unmarked :
          (v : Bytes)
          → is_present (lookup v m) ≡ true
          → (bytes_equal p v || member v s.visited) ≡ true
          → (bytes_equal p v ≡ true) ⊎ (bytes_equal p v ≡ false)
          → member v s.visited ≡ true
      unmarked v h k (inl same) =
          let bad : false ≡ true =
            ap is_present (sym e)
            ∙ ap (λ x. is_present (lookup x m)) ((bytes_equal_iff p v).0 same)
            ∙ h in
          absurd (cc)
      unmarked v h k (inr other) = ground (arith, k)

  module _ (rank : Bytes → ℕ)
      (acyclic : (p : Bytes) (f : FileProto)
        → lookup p m ≡ some f
        → All (λ d. rank d < rank p) f.dependencies)
      (keyed : (p : Bytes) (f : FileProto) → lookup p m ≡ some f → f.path ≡ p) where
    Step-place :
        (p : Bytes) (s t : Visits) (f : FileProto)
        → lookup p m ≡ some f
        → Step (mark p s) t
        → Settled (λ d. rank d < rank p) t
        → All (λ d. member d t.visited ≡ true) f.dependencies
        → Step s (place f t)
    unfolding Settled
    Step-place p s t f e a settled done = record {
      marks = λ v h. a.marks v (ground (arith, h));
      places = λ v h. ground (arith, a.places v h, placed-append v t.ordered f);
      added = λ v h k. elim (a.added v h k) [
        | inl q ↦ elim (Bool-cases (bytes_equal p v)) [
          | inl same ↦
              inr (
                ground
                  (arith, placed-append v t.ordered f, ap (λ x. bytes_equal x v) (keyed p f e)))
          | inr other ↦ inl (ground (arith, q))
        ]
        | inr q ↦ inr (ground (arith, placed-append v t.ordered f))
      ];
      sorted = λ h. InOrder-place [] t.ordered f (a.sorted h) (
          All-map (λ d q. Available-if d (placed d t.ordered) λ present. settled d present q.0 q.1)
            f.dependencies (All-both _ _ f.dependencies done (acyclic p f e)));
    }

    visit-Step :
        (fuel : ℕ) (p : Bytes) (s s' : Visits)
        → Settled (λ v. rank v ≤ rank p) s
        → visit m fuel p s ≡ some s'
        → Step s s' × (member p s'.visited ≡ true)
    unfolding visit Settled
    visit-Step zero p s s' h k = absurd (cc)
    visit-Step (suc fuel) p s s' h k = elim (Bool-cases (member p s.visited)) [
      | inl e ↦
          let same : s ≡ s' = some-injective (rw e at k) in
          (Step-same s s' same, ap (λ x. member p (Visits.visited x)) (sym same) ∙ e)
      | inr e ↦ elim (Option-cases (lookup p m)) [
        | inl e' ↦
            let same : mark p s ≡ s' = some-injective (rw (e, e') at k) in
            (
              subst (Step s) same (Step-mark p s e'),
              ap (λ x. member p (Visits.visited x)) (sym same) ∙ ground (arith, bytes_equal_refl p),
            )
        | inr (f, e') ↦
            let (t, k₁, k₂) =
              and_then-eq-some (loop (visit m fuel) f.dependencies (mark p s)) _
                (rw (e, e') at k) in
            let start : Settled (λ d. rank d < rank p) (mark p s) = λ v there marked low.
              elim (Bool-cases (bytes_equal p v)) [
                | inl same ↦
                    let equal = ap rank ((bytes_equal_iff p v).0 same) in
                    absurd (omega (arith, equal, low))
                | inr other ↦ h v there (ground (arith, marked)) (omega (arith, low))
              ] in
            let (a, done) =
              loop-Step (λ d. rank d < rank p) (visit m fuel)
                (λ q x x' below settled.
                  visit-Step fuel q x x'
                    (λ v there marked low. settled v there marked (omega (arith, low, below))))
                f.dependencies (mark p s) t (acyclic p f e') start k₁ in
            (
              subst (Step s) (some-injective k₂)
                  (Step-place p s t f e' a (Settled-Step _ (mark p s) t start a) done),
              ap (λ x. member p (Visits.visited x)) (sym (some-injective k₂))
                  ∙ a.marks p (ground (arith, bytes_equal_refl p)),
            )
      ]
    ]

    -- Where every file stands under its path and the imports of the map have no cycle (each file has a
    -- greater rank than the files that it imports): what topo_sort returns holds every file of the map, each
    -- after the files of the map that it imports.
    pub topo_sort-InOrder :
        (files : List FileProto) (p : Bytes)
        → topo_sort m ≡ some files
        → is_present (lookup p m) ≡ true
        → InOrder [] files × (placed p files ≡ true)
    unfolding topo_sort Settled
    topo_sort-InOrder files p h there = elim (Option-cases (visit_all m)) [
      | inl e ↦ absurd (cc (rw (topo_sort, e) at h))
      | inr (t, e) ↦
          let same : t.ordered ≡ files = some-injective (rw (topo_sort, e) at h) in
          let (a, done) =
            loop-Step (λ v. Unit) (visit m (suc (length m)))
              (λ v x x' q settled.
                visit-Step (suc (length m)) v x x'
                  (λ w is_there marked low. settled w is_there marked tt))
              (sorted_paths m) (record { visited = []; ordered = [] }) t
              (All-units (sorted_paths m)) (λ v is_there marked q. absurd (cc)) e in
          (
            subst (InOrder []) same (a.sorted tt),
            ap (placed p) (sym same)
                ∙ elim (a.added p there
                    (All-member _ p (sorted_paths m) done (member-sorted_paths p m there))) [
                      | inl q ↦ absurd (cc)
                      | inr q ↦ q
                    ],
          )
    ]
