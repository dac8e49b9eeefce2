-- ===== src/Query/Page/Cursor.antt =====
-- The page tokens: what a page hands out is read back, and only for the same collection and filter.
use kora_db.Base.{
  ◌==◌, ◌≡◌, refl, sym, ap, ◌∙◌, true, false, not, ◌||◌, Bytes, [], ◌∷◌, ok, arith, bytes_equal,
  bytes_equal_iff, bytes_equal_refl, >>=-elim, reject-eq-ok, ok-injective, or_error,
  invalid_page_token,
}
use kora_db.Strconv.Runes.{is_utf8}
use kora_db.Query.Page.{PageCursor, Tokens, is_blank, encode_page_token, parse_page_token}

-- What encoding/json, encoding/base64 and crypto/sha256 say of their results. encoding/json keeps a string
-- that is UTF-8, and replaces what is not.
pub record IsTokens (K : Tokens) : Type 0 where
  pub encodes : (c : PageCursor) → (raw : Bytes) × (K.cursor_codec.encode c ≡ ok raw)
  pub decode-encode :
      (c : PageCursor) (raw : Bytes)
      → c.version ≡ 1
      → is_utf8 c.collection ≡ true
      → is_utf8 c.filter_hash ≡ true
      → K.cursor_codec.encode c ≡ ok raw
      → K.cursor_codec.decode raw ≡ ok c
  pub base64 : (raw : Bytes) → K.base64_decode (K.base64_encode raw) ≡ ok raw
  -- the Base64 text of a digest is ASCII
  pub digest-utf8 : (s : Bytes) → is_utf8 (K.base64_encode (K.digest s)) ≡ true
  pub base64_blank : (raw : Bytes) → is_blank (K.base64_encode raw) ≡ is_blank raw
  pub json_blank :
      (c : PageCursor) (raw : Bytes) → K.cursor_codec.encode c ≡ ok raw → is_blank raw ≡ false

module _ (K : Tokens) where
  -- A cursor that a token may hold for this collection and filter.
  pub record IsCursorOf (collection hash : Bytes) (cursor : PageCursor) : Type 0 where
    pub of_version : cursor.version ≡ 1
    pub of_key : is_blank cursor.last_key ≡ false
    pub of_collection : cursor.collection ≡ collection
    pub of_filter : cursor.filter_hash ≡ hash

  -- A token that is not empty is accepted only if it holds version 1, a key, and the collection and the
  -- filter hash of the request.
  pub parse_page_token-IsCursorOf :
      (token collection hash : Bytes) (cursor : PageCursor)
      → is_blank token ≡ false
      → parse_page_token K token collection hash ≡ ok cursor
      → IsCursorOf collection hash cursor
  unfolding parse_page_token
  parse_page_token-IsCursorOf [] collection hash cursor n h = absurd (cc)
  parse_page_token-IsCursorOf (b ∷ token) collection hash cursor n h =
      >>=-elim (or_error invalid_page_token (K.base64_decode (b ∷ token))) h λ raw _ h₁.
        >>=-elim (or_error invalid_page_token (K.cursor_codec.decode raw)) h₁ λ c _ h₂.
          let (good, h₃) = reject-eq-ok _ _ _ h₂ in
          let same : c ≡ cursor = ok-injective h₃ in rw (← same) (accepted c good)
    where
      accepted :
          (c : PageCursor)
          → (not (c.version == 1)
              || is_blank c.last_key
              || not (bytes_equal c.collection collection)
              || not (bytes_equal c.filter_hash hash))
            ≡ false
          → IsCursorOf collection hash c
      accepted c good = record {
        of_version = ground arith;
        of_key = ground arith;
        of_collection = ground (arith, bytes_equal_iff c.collection collection);
        of_filter = ground (arith, bytes_equal_iff c.filter_hash hash);
      }

  parse-raw :
      (u raw collection hash : Bytes) (cursor : PageCursor)
      → IsCursorOf collection hash cursor
      → is_blank u ≡ false
      → K.base64_decode u ≡ ok raw
      → K.cursor_codec.decode raw ≡ ok cursor
      → parse_page_token K u collection hash ≡ ok cursor
  unfolding parse_page_token
  parse-raw [] raw collection hash cursor c n b d = absurd (cc)
  parse-raw (a ∷ u) raw collection hash cursor c n b d =
      rw
        (
          b,
          d,
          c.of_version,
          c.of_key,
          c.of_collection,
          c.of_filter,
          bytes_equal_refl collection,
          bytes_equal_refl hash,
        )
        refl

  -- Where JSON and Base64 do what they document: the token of a cursor of version 1 with a key, whose
  -- collection and filter hash are UTF-8, is not empty, and for that collection and filter hash it is read
  -- back as the cursor.
  pub parse_page_token-encode_page_token :
      IsTokens K
      → (cursor : PageCursor) (token collection hash : Bytes) → IsCursorOf collection hash cursor
      → is_utf8 collection ≡ true
      → is_utf8 hash ≡ true
      → encode_page_token K cursor ≡ ok token
      → (is_blank token ≡ false) × (parse_page_token K token collection hash ≡ ok cursor)
  unfolding encode_page_token
  parse_page_token-encode_page_token T cursor token collection hash c u u' h =
      >>=-elim (K.cursor_codec.encode cursor) h λ raw e h₁.
        let same : K.base64_encode raw ≡ token = ok-injective h₁ in
        let full : is_blank token ≡ false =
          rw (← same, T.base64_blank raw) (T.json_blank cursor raw e) in
        (
          full,
          parse-raw token raw collection hash cursor c full (rw same at (T.base64 raw)) (
              T.decode-encode cursor raw c.of_version (ap is_utf8 c.of_collection ∙ u)
                (ap is_utf8 c.of_filter ∙ u') e),
        )

  read_cursor :
      (u raw collection hash : Bytes) (cursor x : PageCursor)
      → is_blank u ≡ false
      → K.base64_decode u ≡ ok raw
      → K.cursor_codec.decode raw ≡ ok cursor
      → parse_page_token K u collection hash ≡ ok x
      → x ≡ cursor
  unfolding parse_page_token
  read_cursor [] raw collection hash cursor x n b d h = absurd (cc)
  read_cursor (a ∷ u) raw collection hash cursor x n b d h =
      sym (ok-injective (reject-eq-ok _ _ _ (rw (b, d) at h)).1)

  -- A token that is accepted holds the cursor that it was made of.
  pub encoded_cursor :
      IsTokens K
      → (cursor x : PageCursor) (token collection hash : Bytes) → cursor.version ≡ 1
      → is_utf8 cursor.collection ≡ true
      → is_utf8 cursor.filter_hash ≡ true
      → is_blank token ≡ false
      → encode_page_token K cursor ≡ ok token
      → parse_page_token K token collection hash ≡ ok x
      → x ≡ cursor
  unfolding encode_page_token
  encoded_cursor T cursor x token collection hash v u u' n h k =
      >>=-elim (K.cursor_codec.encode cursor) h λ raw e h₁.
        let same : K.base64_encode raw ≡ token = ok-injective h₁ in
        read_cursor token raw collection hash cursor x n (rw same at (T.base64 raw))
          (T.decode-encode cursor raw v u u' e) k
