-- ===== src/Recovery/Kept.antt =====
-- The database that a restore replaces is not lost, whichever step fails.
use kora_db.Base.{
  ℕ, ◌≡◌, ◌⊎◌, sym, ap, ◌∙◌, Bytes, Bool, true, false, not, ◌&&◌, Option, none, some, Error, Result,
  ok, err, reject-eq-ok, checked-eq-ok, >>=-elim, ok-injective, Result-cases, Bool-cases, inl, inr,
  bytes_equal, bytes_equal_iff, bytes_equal_refl, arith, leb, rollback_path_required,
  rollback_path_exists, restore_refused, destination_exists, if◌then◌else◌,
}
use mathlib.Core.Path.{subst}
use kora_db.Recovery.{
  Files, Options, copy_limit, is_blank_path, existing, checked, validate_rollback_path,
  check_restore, stage, undo, replace, publish, unless_published, publish_staged, restore_into,
  restore,
}

-- What the calls are documented to do to the contents of the paths.
pub record IsFiles (F : Files) : Type 0 where
  pub rename-content :
      (s s' : F.State) (a b q : Bytes)
      → F.rename s a b ≡ ok s'
      → F.content s' q ≡ (
          if bytes_equal b q
          then F.content s a
          else if bytes_equal a q
          then none
          else F.content s q)
  pub create_temp-fresh :
      (s s' : F.State) (d p : Bytes) → F.create_temp s d ≡ ok (p, s') → F.content s p ≡ none
  pub create_temp-others :
      (s s' : F.State) (d p q : Bytes)
      → F.create_temp s d ≡ ok (p, s')
      → bytes_equal p q ≡ false
      → F.content s' q ≡ F.content s q
  pub chmod-others :
      (s s' : F.State) (p q : Bytes)
      → F.chmod s p ≡ ok s'
      → bytes_equal p q ≡ false
      → F.content s' q ≡ F.content s q
  pub copy-others :
      (s : F.State) (p q : Bytes) (n : ℕ)
      → bytes_equal p q ≡ false
      → F.content (F.copy s p n).1 q ≡ F.content s q
  pub remove-others :
      (s : F.State) (p q : Bytes)
      → bytes_equal p q ≡ false
      → F.content (F.remove s p) q ≡ F.content s q
  pub stat-missing : (s : F.State) (q : Bytes) → F.stat s q ≡ ok none → F.content s q ≡ none

module _ (F : Files) (L : IsFiles F) (d rb old : Bytes) (apart : bytes_equal rb d ≡ false) where
  -- The old database is at its path, or at the rollback path.
  Safe : F.State → Type 0
  Safe s = (F.content s d ≡ some old) ⊎ (F.content s rb ≡ some old)

  other : bytes_equal d rb ≡ false
  other = ground (arith, apart, bytes_equal_iff d rb, bytes_equal_iff rb d)

  module _ (p : Bytes) (not_d : bytes_equal p d ≡ false) (not_rb : bytes_equal p rb ≡ false) where
    removed : (s : F.State) → Safe s → Safe (F.remove s p)
    unfolding Safe
    removed s (inl h) = inl (L.remove-others s p d not_d ∙ h)
    removed s (inr h) = inr (L.remove-others s p rb not_rb ∙ h)

    unless_published-Safe :
        (r : Result ℕ) (s : F.State) → Safe s → Safe (unless_published F p (r, s)).1
    unless_published-Safe (ok n) s h = h
    unless_published-Safe (err e) s h = removed s h

    undone : (s : F.State) (e : Error) → F.content s rb ≡ some old → Safe (undo F s rb d e).1
    unfolding Safe
    undone s e h = elim (Result-cases (F.rename s rb d)) [
      | inl (s', i) ↦
          rw (i, undo)
            (inl (
              L.rename-content s s' rb d d i
              ∙ ap
                  (λ c.
                    if c
                    then F.content s rb
                    else (if bytes_equal rb d then none else F.content s d))
                  (bytes_equal_refl d)
              ∙ h))
      | inr (x, i) ↦ rw (i, undo) (inr h)
    ]

    replaced : (s : F.State) (n : ℕ) → F.content s rb ≡ some old → Safe (replace F s p d rb n).1
    unfolding Safe
    replaced s n h = elim (Result-cases (F.rename s p d)) [
      | inl (s', i) ↦
          rw (i, replace) (inr (L.rename-content s s' p d rb i ∙ ground (arith, not_rb, other, h)))
      | inr (x, i) ↦ rw (i, replace) (undone s x h)
    ]

    published :
        (s : F.State) (n : ℕ) → F.content s d ≡ some old → Safe (publish F s p d true rb n).1
    unfolding Safe publish
    published s n h = elim (Result-cases (F.rename s d rb)) [
      | inl (s', i) ↦
          rw (i, publish)
            (replaced s' n (
              L.rename-content s s' d rb rb i
              ∙ ap
                  (λ c.
                    if c
                    then F.content s d
                    else (if bytes_equal d rb then none else F.content s rb))
                  (bytes_equal_refl rb)
              ∙ h))
      | inr (x, i) ↦ rw (i, publish) (inl h)
    ]

    publish_staged-Safe :
        (r : Result ℕ) (s : F.State)
        → F.content s d ≡ some old
        → Safe (publish_staged F p d true rb (r, s)).1
    unfolding Safe
    publish_staged-Safe (ok n) s h = published s n h
    publish_staged-Safe (err e) s h = inl h

    staged :
        (s : F.State) (options : Options)
        → F.content s d ≡ some old
        → F.content (stage F s p options).1 d ≡ some old
    unfolding stage
    staged s options h = elim (Result-cases (F.chmod s p)) [
      | inl (s', i) ↦
          rw (i, stage)
            (L.copy-others s' p d (copy_limit options.max_bytes) not_d
              ∙ L.chmod-others s s' p d i not_d
              ∙ h)
      | inr (x, i) ↦ rw (i, stage) h
    ]

    restored :
        (s : F.State) (options : Options)
        → F.content s d ≡ some old
        → Safe (restore_into F d options (true, rb) (p, s)).1
    restored s options h =
        let (r, t) = publish_staged F p d true rb (stage F s p options) in
        unless_published-Safe r t
          (publish_staged-Safe (stage F s p options).0 (stage F s p options).1 (staged s options h))

-- The path of a value is not that of none.
none_apart :
    (F : Files) (s : F.State) (p q : Bytes) {b : Bytes}
    → F.content s p ≡ none
    → F.content s q ≡ some b
    → bytes_equal p q ≡ false
none_apart F s p q h k = elim (Bool-cases (bytes_equal p q)) [
  | inr e ↦ e
  | inl e ↦ absurd (cc (sym h ∙ ap (F.content s) ((bytes_equal_iff p q).0 e) ∙ k))
]

module _ (F : Files) (L : IsFiles F) (s : F.State) (destination : Bytes) (options : Options)
    (old : Bytes) where
  abbrev target : Bytes
  target = F.clean destination

  abbrev saved : Bytes
  saved = F.clean options.rollback_path

  rollback_checked :
      (r : Bytes)
      → validate_rollback_path F s target true options ≡ ok r
      → options.overwrite ≡ true
      → (r ≡ saved) × (bytes_equal saved target ≡ false)
  unfolding validate_rollback_path
  rollback_checked r h o =
      let (given, h₁) =
        reject-eq-ok (is_blank_path options.rollback_path) rollback_path_required _ (rw o at h) in
      let (beside, h₂) =
        reject-eq-ok (not (bytes_equal (F.dir saved) (F.dir target))) restore_refused _ h₁ in
      let (apart, h₃) = reject-eq-ok (bytes_equal saved target) restore_refused _ h₂ in
      >>=-elim (F.lstat s saved) h₃ λ there e h₄.
        let (free, h₅) = reject-eq-ok there rollback_path_exists _ h₄ in
        (sym (ok-injective h₅), apart)

  target_exists :
      (info : Option Bool) (there : Bool)
      → F.content s target ≡ some old
      → F.stat s target ≡ ok info
      → existing info ≡ ok there
      → there ≡ true
  target_exists none there h e k = absurd (cc (sym h ∙ L.stat-missing s target e))
  target_exists (some true) there h e k = absurd (cc)
  target_exists (some false) there h e k = sym (ok-injective k)

  check_restore-target :
      (exists : Bool) (r : Bytes)
      → F.content s target ≡ some old
      → check_restore F s destination options ≡ ok (exists, r)
      → (exists ≡ true) × (r ≡ saved) × (bytes_equal saved target ≡ false)
  unfolding check_restore
  check_restore-target exists r h k =
      let (bounded, k₁) = reject-eq-ok (leb options.max_bytes 0) restore_refused _ k in
      let (named, k₂) = reject-eq-ok (is_blank_path destination) restore_refused _ k₁ in
      >>=-elim (F.stat s target) k₂ λ info e k₃. >>=-elim (existing info) k₃ λ there e' k₄.
        let (over, k₅) = reject-eq-ok (there && not options.overwrite) destination_exists _ k₄ in
        >>=-elim (validate_rollback_path F s target there options) k₅ λ rollback e'' k₆.
          let (off, k₇) =
            checked-eq-ok (if there then checked (F.offline s target) else ok tt) _ k₆ in
          let same = ok-injective k₇ in
          let is_there = target_exists info there h e e' in
          let (path, apart) =
            rollback_checked rollback
              (ap (λ x. validate_rollback_path F s target x options) (sym is_there) ∙ e'')
              (ground (arith, over, is_there)) in
          (ap (λ x. x.0) (sym same) ∙ is_there, ap (λ x. x.1) (sym same) ∙ path, apart)

  -- Where a file is at the destination, and the staging file is not at the rollback path: after Restore,
  -- whether it succeeds or fails at any step, that file's content is at the destination or at the rollback
  -- path.
  pub restore-keeps :
      F.content s target ≡ some old
      → ((p : Bytes) (s' : F.State)
          → F.create_temp s (F.dir target) ≡ ok (p, s')
          → bytes_equal p saved ≡ false)
      → (F.content (restore F s destination options).1 target ≡ some old)
        ⊎ (F.content (restore F s destination options).1 saved ≡ some old)
  unfolding restore Safe
  restore-keeps h fresh = elim (Result-cases (check_restore F s destination options)) [
    | inr (x, e) ↦ rw (e, restore) (inl h)
    | inl ((exists, r), e) ↦ elim (Result-cases (F.create_temp s (F.dir target))) [
      | inr (x, i) ↦ rw (e, i, restore) (inl h)
      | inl ((p, s'), i) ↦
          let (there, path, apart) = check_restore-target exists r h e in
          let not_target =
            none_apart F s p target (L.create_temp-fresh s s' (F.dir target) p i) h in
          let kept = L.create_temp-others s s' (F.dir target) p target i not_target ∙ h in
          rw (e, i, restore)
            (subst
              (λ x. Safe F L target saved old apart (restore_into F target options x (p, s')).1)
              (ap (λ x. (x, saved)) (sym there) ∙ ap (λ x. (exists, x)) (sym path))
              (restored F L target saved old apart p not_target (fresh p s' i) s' options kept))
    ]
  ]
