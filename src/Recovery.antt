-- ===== src/Recovery.antt =====
-- internal/recovery/restore.go: Restore. The file system, bbolt's opening and checking of a file and the
-- snapshot's reader are outside the repository: `Files` is what the code calls of them.
pub mod Kept
use kora_db.Base.{
  ℕ, suc, zero, ◌+◌, ◌^◌, Bytes, Bool, true, false, not, ◌&&◌, Option, none, some, List, [], ◌∷◌,
  Error, Result, ok, err, reject, ◌>>=◌, ◌>>◌, bytes_equal, ltb, leb, if◌then◌else◌,
  snapshot_too_large, destination_exists, rollback_path_required, rollback_path_exists,
  restore_refused,
}

-- The calls of os, filepath, io and bbolt. `content` is what a path names a file with.
pub record Files : Type 1 where
  pub State : Type 0
  pub content : State → Bytes → Option Bytes
  -- os.Stat: the inner `none` is a path that does not exist, and the Boolean says whether it is a directory
  pub stat : State → Bytes → Result (Option Bool)
  pub lstat : State → Bytes → Result Bool
  pub clean : Bytes → Bytes
  pub dir : Bytes → Bytes
  pub create_temp : State → Bytes → Result (Bytes × State)
  pub chmod : State → Bytes → Result State
  -- io.Copy of at most so many bytes of the snapshot, with its error
  pub copy : State → Bytes → ℕ → (ℕ × Option Error) × State
  pub sync : State → Bytes → Option Error
  pub close : State → Bytes → Option Error
  pub remove : State → Bytes → State
  pub rename : State → Bytes → Bytes → Result State
  -- verifyDestinationIsOffline and verifySnapshot
  pub offline : State → Bytes → Option Error
  pub verified : State → Bytes → Option Error

-- A MaxBytes below 1 is refused, so that 0 stands for the negative ones too. The reader is not nil.
pub record Options : Type 0 where
  pub max_bytes : ℕ
  pub overwrite : Bool
  pub rollback_path : Bytes

-- MaxBytes + 1 as an int64: past the largest one it is negative, and nothing is copied.
unfoldable pub copy_limit : ℕ → ℕ
copy_limit n = if ltb (n + 1) (2 ^ 63) then n + 1 else 0

abbrev pub is_blank_path : Bytes → Bool
is_blank_path [] = true
is_blank_path (b ∷ s) = false

abbrev pub checked : Option Error → Result (Unit {0})
checked none = ok tt
checked (some e) = err e

-- Whether the destination exists, which must not be a directory.
abbrev pub existing : Option Bool → Result Bool
existing none = ok false
existing (some true) = err restore_refused
existing (some false) = ok true

module _ (F : Files) where
  -- validateRollbackPath
  unfoldable pub validate_rollback_path : F.State → Bytes → Bool → Options → Result Bytes
  validate_rollback_path s destination false options = do
    reject (not (is_blank_path options.rollback_path)) restore_refused
    ok []
  validate_rollback_path s destination true options = if not options.overwrite then ok [] else (do
    reject (is_blank_path options.rollback_path) rollback_path_required
    let path = F.clean options.rollback_path
    reject (not (bytes_equal (F.dir path) (F.dir destination))) restore_refused
    reject (bytes_equal path destination) restore_refused
    there ← F.lstat s path
    reject there rollback_path_exists
    ok path)

  -- The tests of Restore before it writes: whether the destination exists, and the rollback path.
  unfoldable pub check_restore : F.State → Bytes → Options → Result (Bool × Bytes)
  check_restore s destination options = do
    reject (leb options.max_bytes 0) restore_refused
    reject (is_blank_path destination) restore_refused
    info ← F.stat s (F.clean destination)
    exists ← existing info
    reject (exists && not options.overwrite) destination_exists
    rollback ← validate_rollback_path s (F.clean destination) exists options
    if exists then checked (F.offline s (F.clean destination)) else ok tt
    ok (exists, rollback)

  -- The rest of the staging, once the snapshot is copied.
  unfoldable pub check_staged : F.State → Bytes → Options → ℕ × Option Error → Result ℕ
  check_staged s staged options (n, some e) = err e
  check_staged s staged options (n, none) = do
    reject (ltb options.max_bytes n) snapshot_too_large
    checked (F.sync s staged)
    checked (F.close s staged)
    checked (F.verified s staged)
    ok n

  abbrev pub stage_copied :
      F.State → Bytes → Options → (ℕ × Option Error) × F.State → Result ℕ × F.State
  stage_copied s staged options (copied, s') = (check_staged s' staged options copied, s')

  -- The snapshot is written into the staging file.
  unfoldable pub stage : F.State → Bytes → Options → Result ℕ × F.State
  stage s staged options = elim (F.chmod s staged) [
    | err e ↦ (err e, s)
    | ok s' ↦ stage_copied s' staged options (F.copy s' staged (copy_limit options.max_bytes))
  ]

  -- A rename that failed is undone, or the undoing fails too: the two errors differ in their text alone.
  abbrev pub undo : F.State → Bytes → Bytes → Error → Result ℕ × F.State
  undo s rollback destination e = elim (F.rename s rollback destination) [
    | err e' ↦ (err e, s)
    | ok s' ↦ (err e, s')
  ]

  abbrev pub replace : F.State → Bytes → Bytes → Bytes → ℕ → Result ℕ × F.State
  replace s staged destination rollback n = elim (F.rename s staged destination) [
    | err e ↦ undo s rollback destination e
    | ok s' ↦ (ok n, s')
  ]

  abbrev publish_new : F.State → Bytes → Bytes → ℕ → Result ℕ × F.State
  publish_new s staged destination n = elim (F.rename s staged destination) [
    | err e ↦ (err e, s)
    | ok s' ↦ (ok n, s')
  ]

  -- The renames that publish the staging file.
  unfoldable pub publish : F.State → Bytes → Bytes → Bool → Bytes → ℕ → Result ℕ × F.State
  publish s staged destination false rollback n = publish_new s staged destination n
  publish s staged destination true rollback n = elim (F.rename s destination rollback) [
    | err e ↦ (err e, s)
    | ok s' ↦ replace s' staged destination rollback n
  ]

  -- The deferred function: what is not published is removed.
  abbrev pub unless_published : Bytes → Result ℕ × F.State → Result ℕ × F.State
  unless_published staged (ok n, s) = (ok n, s)
  unless_published staged (err e, s) = (err e, F.remove s staged)

  abbrev pub publish_staged : Bytes → Bytes → Bool → Bytes → Result ℕ × F.State → Result ℕ × F.State
  publish_staged staged destination exists rollback (err e, s) = (err e, s)
  publish_staged staged destination exists rollback (ok n, s) =
      publish s staged destination exists rollback n

  abbrev pub restore_into : Bytes → Options → Bool × Bytes → Bytes × F.State → Result ℕ × F.State
  restore_into destination options (exists, rollback) (staged, s) =
      unless_published staged
        (publish_staged staged destination exists rollback (stage s staged options))

  -- Restore: the number of bytes of the snapshot.
  unfoldable pub restore : F.State → Bytes → Options → Result ℕ × F.State
  restore s destination options = elim (check_restore s destination options) [
    | err e ↦ (err e, s)
    | ok checks ↦ elim (F.create_temp s (F.dir (F.clean destination))) [
      | err e ↦ (err e, s)
      | ok temp ↦ restore_into (F.clean destination) options checks temp
    ]
  ]
