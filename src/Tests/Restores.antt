-- ===== src/Tests/Restores.antt =====
-- The theorem on restores, on a file system in memory.
use kora_db.Base.{
  ◌≡◌, ◌⊎◌, refl, sym, ok-injective, ap, ◌∙◌, Bytes, text, Bool, true, false, Option, none, some,
  [], ok, err, external, bytes_equal, if◌then◌else◌, Result,
}
use kora_db.Recovery.{
  Files, Options, restore, check_restore, validate_rollback_path, check_staged, stage, publish,
}
use kora_db.Recovery.Kept.{IsFiles, restore-keeps}

abbrev Disk : Type 0
Disk = Bytes → Option Bytes

abbrev assign : Disk → Bytes → Option Bytes → Disk
assign s p v q = if bytes_equal p q then v else s q

abbrev kind_of : Option Bytes → Option Bool
kind_of none = none
kind_of (some b) = some false

abbrev is_there : Option Bytes → Bool
is_there none = false
is_there (some b) = true

abbrev fresh_path : Disk → Option Bytes → Result (Bytes × Disk)
fresh_path s none = ok (text "t", s)
fresh_path s (some b) = err (external 1)

abbrev disk : Files
disk = record {
  State = Disk;
  content = λ s q. s q;
  stat = λ s q. ok (kind_of (s q));
  lstat = λ s q. ok (is_there (s q));
  clean = λ p. p;
  dir = λ p. [];
  create_temp = λ s d. fresh_path s (s (text "t"));
  chmod = λ s p. ok s;
  copy = λ s p n. ((3, none), assign s p (some (text "new")));
  sync = λ s p. none;
  close = λ s p. none;
  remove = λ s p. assign s p none;
  rename = λ s a b. ok (λ q. if bytes_equal b q then s a else assign s a none q);
  offline = λ s p. none;
  verified = λ s p. none;
}

temp_lem :
    (s s' : Disk) (o : Option Bytes) (p : Bytes)
    → fresh_path s o ≡ ok (p, s')
    → (o ≡ none) × (p ≡ text "t") × (s' ≡ s)
temp_lem s s' none p h =
    (refl, ap (λ x. x.0) (sym (ok-injective h)), ap (λ x. x.1) (sym (ok-injective h)))
temp_lem s s' (some b) p h = absurd (cc)

missing : (o : Option Bytes) → ok (kind_of o) ≡ ok none → o ≡ none
missing none h = refl
missing (some b) h = absurd (cc)

IsFiles-disk : IsFiles disk
IsFiles-disk = record {
  rename-content = λ s s' a b q h. ap (λ (x : Disk). x q) (sym (ok-injective h));
  create_temp-fresh = λ s s' d p h. let (e, i, j) = temp_lem s s' (s (text "t")) p h in ap s i ∙ e;
  create_temp-others = λ s s' d p q h n.
      let (e, i, j) = temp_lem s s' (s (text "t")) p h in ap (λ (x : Disk). x q) j;
  chmod-others = λ s s' p q h n. ap (λ (x : Disk). x q) (sym (ok-injective h));
  copy-others = λ s p q n h. ap (λ c. if c then some (text "new") else s q) h;
  remove-others = λ s p q h. ap (λ c. if c then none else s q) h;
  stat-missing = λ s q h. missing (s q) h;
}

abbrev before : Disk
before = assign (λ q. none) (text "db") (some (text "old"))

abbrev options : Options
options = record { max_bytes = 10; overwrite = true; rollback_path = text "bk" }

apart :
    (p : Bytes) (s' : Disk)
    → fresh_path before (before (text "t")) ≡ ok (p, s')
    → bytes_equal p (text "bk") ≡ false
unfolding bytes_equal
apart p s' h =
    let (e, i, j) = temp_lem before s' (before (text "t")) p h in
    ap (λ x. bytes_equal x (text "bk")) i

old_there : before (text "db") ≡ some (text "old")
unfolding bytes_equal
old_there = refl

restore-keeps_example :
    ((restore disk before (text "db") options).1 (text "db") ≡ some (text "old"))
    ⊎ ((restore disk before (text "db") options).1 (text "bk") ≡ some (text "old"))
restore-keeps_example =
    restore-keeps disk IsFiles-disk before (text "db") options (text "old") old_there apart

restored :
    ((restore disk before (text "db") options).0 ≡ ok 3)
    × ((restore disk before (text "db") options).1 (text "db") ≡ some (text "new"))
unfolding restore check_restore validate_rollback_path check_staged stage publish bytes_equal
restored = (refl, refl)
