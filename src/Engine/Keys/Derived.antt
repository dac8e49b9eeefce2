-- ===== src/Engine/Keys/Derived.antt =====
-- What deriveKey does to the transaction: it mints a number, or it changes nothing.
use kora_db.Base.{
  ℕ, ◌≡◌, refl, sym, ap, ◌∙◌, ok-injective, ◌⊎◌, inl, inr, Bytes, Option, ok, arith, Result-cases,
}
use kora_db.Strconv.{format_uint}
use kora_db.Storage.{Bolt, next_sequence}
use kora_db.Storage.Laws.{IsBolt, get-next_sequence}
use kora_db.Proto.{Proto}
use kora_db.Engine.Meta.{KeyKind, auto, by_field, CollectionMeta, data_bucket}
use kora_db.Engine.Keys.{encode_uint, derive_key_of, derive_key}

module _ (B : Bolt) (P : Proto) (files : Option P.Files) (meta : CollectionMeta) where
  -- The key is a number that the sequence of the data bucket minted.
  pub record Minted (kind : KeyKind) (t t' : B.Tx) (key id : Bytes) : Type 0 where
    pub number : ℕ
    pub is_auto : kind ≡ auto
    pub of_key : key ≡ encode_uint number
    pub of_id : id ≡ format_uint number
    pub minted : next_sequence B t (data_bucket meta.name) ≡ ok (number, t')

  -- The key is a field of the document.
  pub record FromField (kind : KeyKind) (t t' : B.Tx) : Type 0 where
    pub is_by_field : kind ≡ by_field
    pub same : t' ≡ t

  kind_cases :
      (kind : KeyKind) (t t' : B.Tx) (msg : P.Message) (key id : Bytes)
      → derive_key_of P files kind B t meta msg ≡ ok ((key, id), t')
      → Minted kind t t' key id ⊎ FromField kind t t'
  unfolding derive_key
  kind_cases auto t t' msg key id h =
      elim (Result-cases (next_sequence B t (data_bucket meta.name))) [
        | inl ((n, u), e) ↦
            let h' : ok ((encode_uint n, format_uint n), u) ≡ ok ((key, id), t') = rw e at h in
            let q : ((encode_uint n, format_uint n), u) ≡ ((key, id), t') = ok-injective h' in
            inl (record {
              number = n;
              is_auto = refl;
              of_key = sym (ap (λ p. p.0.0) q);
              of_id = sym (ap (λ p. p.0.1) q);
              minted = e ∙ ap (λ v. ok (n, v)) (ap (λ p. p.1) q);
            })
        | inr (x, e) ↦ absurd (cc (rw e at h))
      ]
  kind_cases by_field t t' msg key id h = inr (record { is_by_field = refl; same = ground arith })

  pub derived_cases :
      (t t' : B.Tx) (msg : P.Message) (key id : Bytes)
      → derive_key P files B t meta msg ≡ ok ((key, id), t')
      → Minted meta.key_kind t t' key id ⊎ FromField meta.key_kind t t'
  unfolding derive_key
  derived_cases t t' msg key id h = kind_cases meta.key_kind t t' msg key id h

  module _ (L : IsBolt B) (t t' : B.Tx) (msg : P.Message) (key id : Bytes)
      (h : derive_key P files B t meta msg ≡ ok ((key, id), t')) where
    pub get-derive_key : (c k : Bytes) → B.get t' c k ≡ B.get t c k
    get-derive_key c k = elim (derived_cases t t' msg key id h) [
      | inl m ↦ get-next_sequence B L t t' (data_bucket meta.name) m.number m.minted c k
      | inr f ↦ rw f.same
    ]
