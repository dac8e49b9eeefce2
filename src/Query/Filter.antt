-- ===== src/Query/Filter.antt =====
-- internal/query/query.go: filters, their evaluation, their signature and the seed from an index.
use kora_db.Base.{
  ℕ, suc, Bool, true, false, ◌&&◌, Bytes, text, Ordering, Option, none, some, List, [], ◌∷◌, ◌++◌,
  Result, ok, err, reject, field_missing, compare_repeated, unknown_operator, length, ◌>>=◌, ◌>>◌,
  if◌then◌else◌,
}
use kora_db.Strconv.{format_uint}
use kora_db.Storage.{Bolt}
use kora_db.Proto.{Proto}
use kora_db.Index.{is_composite}
use kora_db.Engine.Values.{scalar_value_from_string, compare_values}
use kora_db.Engine.Meta.{CollectionMeta, has_index, require}
use kora_db.Engine.Indexing.{lookup_by_index}

-- Op; `other` is any other number of that type that is not negative.
pub data Op : Type 0 where
  eq ne gt gte lt lte : Op
  other : ℕ → Op

pub record Cmp : Type 0 where
  pub field : Bytes
  pub op : Op
  pub value : Bytes

-- Filter, with Go's nil, and the slices of And and Or.
mutual
  pub data Filter : Type 0 where
    nil : Filter
    cmp : Cmp → Filter
    and : Filters → Filter
    or : Filters → Filter

  pub data Filters : Type 0 where
    end : Filters
    more : Filter → Filters → Filters

abbrev is_eq : Op → Bool
is_eq eq = true
is_eq _ = false

-- The switch of evalCmp on the operator.
unfoldable pub satisfies : Op → Ordering → Result Bool
satisfies eq o = ok (elim o [ Ordering.eq ↦ true | _ ↦ false ])
satisfies ne o = ok (elim o [ Ordering.eq ↦ false | _ ↦ true ])
satisfies gt o = ok (elim o [ Ordering.gt ↦ true | _ ↦ false ])
satisfies gte o = ok (elim o [ Ordering.lt ↦ false | _ ↦ true ])
satisfies lt o = ok (elim o [ Ordering.lt ↦ true | _ ↦ false ])
satisfies lte o = ok (elim o [ Ordering.gt ↦ false | _ ↦ true ])
satisfies (other n) o = err (unknown_operator n)

module _ (P : Proto) (md : P.Descriptor) (msg : P.Message) where
  -- evalCmp
  unfoldable pub eval_cmp : Cmp → Result Bool
  unfolding satisfies
  eval_cmp c = do
    fd ← require (field_missing c.field) (P.field md c.field)
    reject (is_composite fd) (compare_repeated c.field)
    literal ← scalar_value_from_string P fd c.value
    order ← compare_values P fd (P.value msg fd) literal
    satisfies c.op order

-- The loops of eval over the members of And and Or: an error or a decisive member ends them.
abbrev and_then : Result Bool → Result Bool → Result Bool
and_then (err e) rest = err e
and_then (ok false) rest = ok false
and_then (ok true) rest = rest

abbrev or_else : Result Bool → Result Bool → Result Bool
or_else (err e) rest = err e
or_else (ok true) rest = ok true
or_else (ok false) rest = rest

-- eval
unfoldable mutual
  pub eval : (P : Proto) → P.Descriptor → P.Message → Filter → Result Bool
  eval P md msg nil = ok true
  eval P md msg (cmp c) = eval_cmp P md msg c
  eval P md msg (and fs) = eval_all P md msg fs
  eval P md msg (or fs) = eval_any P md msg fs

  pub eval_all : (P : Proto) → P.Descriptor → P.Message → Filters → Result Bool
  eval_all P md msg end = ok true
  eval_all P md msg (more f fs) = and_then (eval P md msg f) (eval_all P md msg fs)

  pub eval_any : (P : Proto) → P.Descriptor → P.Message → Filters → Result Bool
  eval_any P md msg end = ok false
  eval_any P md msg (more f fs) = or_else (eval P md msg f) (eval_any P md msg fs)

-- Op.String
unfoldable pub op_text : Op → Bytes
op_text eq = text "=="
op_text ne = text "!="
op_text gt = text ">"
op_text gte = text ">="
op_text lt = text "<"
op_text lte = text "<="
op_text (other n) = text "?"

-- The integer of an operator.
unfoldable pub op_code : Op → ℕ
op_code eq = 0
op_code ne = 1
op_code gt = 2
op_code gte = 3
op_code lt = 4
op_code lte = 5
op_code (other n) = n

abbrev pub count : Filters → ℕ
count end = 0
count (more f fs) = suc (count fs)

-- writeFilterSignature, as the text that it writes.
unfoldable mutual
  pub signature : Filter → Bytes
  signature nil = text "nil;"
  signature (cmp c) =
      text "cmp:"
      ++ (format_uint (length c.field)
          ++ (b':'
              ∷ (c.field
                  ++ (b':'
                      ∷ (format_uint (op_code c.op)
                          ++ (b':'
                              ∷ (format_uint (length c.value)
                                  ++ (b':' ∷ (c.value ++ text ";")))))))))
  signature (and fs) =
      text "and:" ++ (format_uint (count fs) ++ (text ":[" ++ (signatures fs ++ text "];")))
  signature (or fs) =
      text "or:" ++ (format_uint (count fs) ++ (text ":[" ++ (signatures fs ++ text "];")))

  pub signatures : Filters → Bytes
  signatures end = []
  signatures (more f fs) = signature f ++ signatures fs

-- The comparisons among the members of a top-level And.
abbrev cmp_members : Filters → List Cmp
cmp_members end = []
cmp_members (more (cmp c) fs) = c ∷ cmp_members fs
cmp_members (more _ fs) = cmp_members fs

-- The candidates of indexSeed.
unfoldable pub candidates : Filter → List Cmp
candidates (cmp c) = c ∷ []
candidates (and fs) = cmp_members fs
candidates _ = []

module _ (B : Bolt) (P : Proto) (files : Option P.Files) (t : B.Tx) (meta : CollectionMeta) where
  abbrev or_next : Result (List Bytes) → Option (List Bytes) → Option (List Bytes)
  or_next (ok keys) rest = some keys
  or_next (err e) rest = rest

  -- The loop of indexSeed over the candidates.
  unfoldable pub seed_from : List Cmp → Option (List Bytes)
  seed_from [] = none
  seed_from (c ∷ cs) =
      let rest = seed_from cs in
      if is_eq c.op && has_index meta c.field
      then or_next (lookup_by_index B P files t meta c.field c.value) rest
      else rest

  -- indexSeed
  unfoldable pub index_seed : Filter → Option (List Bytes)
  unfolding seed_from candidates
  index_seed filter = seed_from (candidates filter)
