-- ===== src/Auth/Admins.antt =====
-- An administrator remains: whatever Revoke is asked for, the last administrator's key is kept.
use kora_db.Base.{
  ℕ, suc, ◌<◌, ◌≡◌, refl, sym, ap, ◌∙◌, true, false, not, Bytes, List, [], ◌∷◌, Option, none, some,
  Error, ok, >>=-elim, ok-injective, or_error, or_error-eq-ok, Result-cases, Bool-cases, inl, inr,
  arith, key_not_found, corrupt_key, bytes_equal, bytes_equal_iff, bytes_equal_refl,
  bytes_compare_refl, if◌then◌else◌,
}
use kora_db.Base.Int.{ℤ}
use kora_db.Storage.{Bolt, get, delete, scan, scan_items}
use kora_db.Storage.Laws.{IsBolt, lookup, IsBelow, IsSorted, found_lem, get-delete, update_keeps}
use kora_db.Engine.Meta.{Codec}
use kora_db.Auth.{
  KeyRecord, keys_bucket, is_admin, count_admin, check_admins, enough, revoke, revoke_key,
  revoke_found, revoke_missing,
}

module _ (J : Codec KeyRecord) where
  -- A stored value is an administrator's record.
  pub record IsAdmin (b : Bytes) : Type 0 where
    pub rec : KeyRecord
    pub decoded : J.decode b ≡ ok rec
    pub admin : is_admin rec.role ≡ true

  -- An administrator's entry in a list of entries, under another key.
  record Other (id : Bytes) (items : List (Bytes × Bytes)) : Type 0 where
    key : Bytes
    value : Bytes
    present : lookup key items ≡ some value
    is_other : bytes_equal id key ≡ false
    is_admin_key : IsAdmin value

module _ (B : Bolt) (J : Codec KeyRecord) where
  -- The number of administrators in a list of entries, where all of them decode.
  abbrev counted : ℕ → List (Bytes × Bytes) → ℕ × Option Error
  counted n items = scan_items (count_admin B J) n items

-- A key that is below all of a list is none of its keys.
below-ne :
    (k j : Bytes) (items : List (Bytes × Bytes)) (v : Bytes)
    → IsBelow k items
    → lookup j items ≡ some v
    → bytes_equal k j ≡ false
below-ne k j [] v b h = absurd (cc)
below-ne k j ((i, w) ∷ items) v b h = ground (
  arith,
  below-ne k j items v b.1,
  b.0,
  bytes_equal_iff i j,
  bytes_equal_iff k j,
  bytes_compare_refl k,
)

module _ (J : Codec KeyRecord) where
  later :
      (id k v : Bytes) (items : List (Bytes × Bytes))
      → IsBelow k items
      → Other J id items
      → Other J id ((k, v) ∷ items)
  later id k v items b o = record {
    key = o.key;
    value = o.value;
    present = ground (arith, below-ne k o.key items o.value b o.present, o.present);
    is_other = o.is_other;
    is_admin_key = o.is_admin_key;
  }

module _ (B : Bolt) (J : Codec KeyRecord) where
  -- One step of the count, at a value that decodes.
  count-step :
      (n : ℕ) (k v : Bytes) (items : List (Bytes × Bytes)) (m : ℕ)
      → counted B J n ((k, v) ∷ items) ≡ (m, none)
      → (rec : KeyRecord) × (J.decode v ≡ ok rec)
        × (counted B J (if is_admin rec.role then suc n else n) items ≡ (m, none))
  unfolding scan_items count_admin
  count-step n k v items m h = elim (Result-cases (J.decode v)) [
    | inl (rec, e) ↦ (rec, e, rw (e, scan_items, count_admin) at h)
    | inr (x, e) ↦ absurd (cc (rw (e, scan_items, count_admin) at h))
  ]

  -- Where one more administrator is counted than there is none, the list has one; of two, one is under
  -- another key than the given one.
  found_admin :
      (id : Bytes) (n m : ℕ) (items : List (Bytes × Bytes))
      → IsSorted items
      → IsBelow id items
      → counted B J n items ≡ (m, none)
      → n < m
      → Other J id items
  unfolding scan_items
  found_admin id n m [] s b h lt = absurd (omega (arith, ap (λ p. p.0) h))
  found_admin id n m ((k, v) ∷ items) s b h lt =
      let (rec, e, h') = count-step n k v items m h in
      elim (Bool-cases (is_admin rec.role)) [
        | inl does ↦ record {
          key = k;
          value = v;
          present = rw (bytes_equal_refl k) refl;
          is_other = ground (arith, bytes_equal_iff id k, bytes_compare_refl id, b.0);
          is_admin_key = record { rec = rec; decoded = e; admin = does };
        }
        | inr lacks ↦
            later J id k v items s.0 (found_admin id n m items s.1 b.1 (rw lacks at h') lt)
      ]

  second_admin :
      (id : Bytes) (n m : ℕ) (items : List (Bytes × Bytes))
      → IsSorted items
      → counted B J n items ≡ (m, none)
      → suc n < m
      → Other J id items
  unfolding scan_items
  second_admin id n m [] s h lt = absurd (omega (arith, ap (λ p. p.0) h))
  second_admin id n m ((k, v) ∷ items) s h lt =
      let (rec, e, h') = count-step n k v items m h in
      elim (Bool-cases (is_admin rec.role)) [
        | inr lacks ↦ later J id k v items s.0 (second_admin id n m items s.1 (rw lacks at h') lt)
        | inl does ↦ elim (Bool-cases (bytes_equal id k)) [
          | inr other ↦ record {
            key = k;
            value = v;
            present = rw (bytes_equal_refl k) refl;
            is_other = other;
            is_admin_key = record { rec = rec; decoded = e; admin = does };
          }
          | inl same ↦ later J id k v items s.0 (
              found_admin id (suc n) m items s.1 (rw ((bytes_equal_iff id k).0 same) s.0)
                (rw does at h') lt)
        ]
      ]

-- A database with an administrator's key.
pub record HasAdmin (B : Bolt) (J : Codec KeyRecord) (t : B.Tx) : Type 0 where
  pub key : Bytes
  pub value : Bytes
  pub stored : B.get t keys_bucket key ≡ some value
  pub holder : IsAdmin J value

module _ (B : Bolt) (L : IsBolt B) (J : Codec KeyRecord) (id : Bytes) where
  enough-eq-ok : (n : ℕ) (e : Option Error) → enough B J (n, e) ≡ ok tt → (e ≡ none) × (1 < n)
  enough-eq-ok n none h = ground arith
  enough-eq-ok n (some x) h = absurd (cc)

  -- Where the test lets an administrator's key go, there is another one.
  another_admin :
      (t : B.Tx) (role : ℤ)
      → is_admin role ≡ true
      → check_admins B J t role ≡ ok tt
      → Other J id (B.for_each t keys_bucket)
  unfolding check_admins scan
  another_admin t role admin h = elim (Bool-cases (not (B.has_bucket t keys_bucket))) [
    | inl gone ↦ absurd (cc (rw (admin, gone, check_admins, scan) at h))
    | inr there ↦
        let r = scan_items (count_admin B J) 0 (B.for_each t keys_bucket) in
        let (none_left, many) = enough-eq-ok r.0 r.1 (rw (admin, there, check_admins, scan) at h) in
        second_admin B J id 0 r.0 (B.for_each t keys_bucket) (L.for_each-IsSorted t keys_bucket)
          (ap (λ e. (r.0, e)) none_left) many
  ]

  -- An administrator's entry under another key outlives the deletion.
  outlives :
      (t t' : B.Tx) (key value : Bytes)
      → B.get t keys_bucket key ≡ some value
      → bytes_equal id key ≡ false
      → delete B t keys_bucket id ≡ ok t'
      → IsAdmin J value
      → HasAdmin B J t'
  outlives t t' key value there other gone holder = record {
    key = key;
    value = value;
    stored = ground (
      arith,
      get-delete B L t t' keys_bucket id keys_bucket key gone,
      bytes_equal_refl keys_bucket,
    );
    holder = holder;
  }

  found_keeps :
      (t t' : B.Tx) (b : Bytes)
      → B.get t keys_bucket id ≡ some b
      → revoke_found B J id b t ≡ ok (tt, t')
      → HasAdmin B J t
      → HasAdmin B J t'
  found_keeps t t' b there h a = >>=-elim (or_error corrupt_key (J.decode b)) h λ target e h₁.
      >>=-elim (check_admins B J t target.role) h₁ λ _ c h₂.
        >>=-elim (delete B t keys_bucket id) h₂ λ u gone h₃.
          let q : u ≡ t' = ap (λ p. p.1) (ok-injective h₃) in
          let gone' = gone ∙ ap ok q in
          elim (Bool-cases (is_admin target.role)) [
            | inl does ↦
                let o = another_admin t target.role does c in
                outlives t t' o.key o.value
                  (sym (L.lookup-for_each t keys_bucket o.key) ∙ o.present) o.is_other gone'
                  o.is_admin_key
            | inr lacks ↦
                outlives t t' a.key a.value a.stored
                  (ground (
                    arith,
                    bytes_equal_iff id a.key,
                    a.stored,
                    there,
                    or_error-eq-ok corrupt_key (J.decode b) e,
                    a.holder.decoded,
                    a.holder.admin,
                    lacks,
                  ))
                  gone' a.holder
          ]

  missing_keeps :
      (e : Error) (t t' : B.Tx)
      → revoke_missing B J e t ≡ ok (tt, t')
      → HasAdmin B J t
      → HasAdmin B J t'
  missing_keeps key_not_found t t' h a = rw (← ap (λ p. p.1) (ok-injective h)) a
  missing_keeps e t t' h a = absurd (cc)

  key_keeps : (t t' : B.Tx) → revoke_key B J id t ≡ ok (tt, t') → HasAdmin B J t → HasAdmin B J t'
  unfolding revoke_key
  key_keeps t t' h a = elim (Result-cases (get B t keys_bucket id)) [
    | inl (b, e) ↦ found_keeps t t' b (found_lem B L t keys_bucket id e) (rw (e, revoke_key) at h) a
    | inr (x, e) ↦ missing_keeps x t t' (rw (e, revoke_key) at h) a
  ]

  -- Where the database holds an administrator's key, it holds one after Revoke of any key, whether Revoke
  -- succeeds or not.
  pub revoke-HasAdmin : (t : B.Tx) → HasAdmin B J t → HasAdmin B J (revoke B J id t).1
  unfolding revoke
  revoke-HasAdmin t a =
      update_keeps B L (HasAdmin B J) (revoke_key B J id) t a λ _ t' h. key_keeps t t' h a
