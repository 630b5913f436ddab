-- ===== src/Files.antt =====
-- files/files.go: writing a file, with a backup of what it held. `W` is the state of the operating
-- system, `F` an open file; what is printed is left out.
mod Examples
pub mod Writing
pub mod Backup
use eris_db.Base.{
  ℕ, ◌/◌, ◌%◌, Bytes, str, Bool, true, false, ◌++◌, Result, ok, err, panic, Error, and_then, ◌==◌,
  ltb, length, if◌then◌else◌,
}

-- What `os.Stat` returns: whether the file is regular, or an error, which `os.IsNotExist` tells apart.
pub data FileInfo : Type 0 where
  found : Bool → FileInfo
  missing : FileInfo
  failed : Error → FileInfo

-- What the code calls of the package os.
pub record Os (W F : Type 0) : Type 0 where
  pub create : Bytes → W → Result F × W
  pub write : F → Bytes → W → Result ℕ × W
  pub close : F → W → Result (Unit {0}) × W
  pub stat : Bytes → W → FileInfo
  pub remove : Bytes → W → Result (Unit {0}) × W
  pub read_file : Bytes → W → Result Bytes

abbrev pub file_rw : ℕ
file_rw = 438

abbrev pub file_w : ℕ
file_w = 146

abbrev pub file_r : ℕ
file_r = 292

-- `fm&2 == 2`
unfoldable pub is_writable : ℕ → Bool
is_writable fm = (fm / 2) % 2 == 1

-- `return err`, where the error of `Create` is nil.
abbrev nil_error : Result (Unit {0})
nil_error = ok tt

-- The end of `WriteFile` after `f.Write`. An error of the write is printed with the text of the
-- other error, which is nil; a short write is noted, but the other error is returned.
pub written : Bytes → Result ℕ → Result (Unit {0})
written bts (ok n) = if ltb n (length bts) then nil_error else ok tt
written bts (err e) = panic
written bts panic = panic

module _ {W F : Type 0} (os : Os W F) where
  -- `WriteFile` with the file open; the deferred `Close` runs in every case.
  pub write_open : Bytes → F → W → Result (Unit {0}) × W
  write_open bts f w = let (n, w2) = os.write f bts w in (written bts n, (os.close f w2).1)

  unfoldable pub write_file : Bytes → Bytes → ℕ → W → Result (Unit {0}) × W
  write_file name bts perm w = and_then (os.create name w) (write_open bts)

  unfoldable pub write_file_rw : Bytes → Bytes → W → Result (Unit {0}) × W
  write_file_rw name bts = write_file name bts file_rw

  unfoldable pub write_file_read_only : Bytes → Bytes → W → Result (Unit {0}) × W
  write_file_read_only name bts = write_file name bts file_r

  unfoldable pub write_file_write_only : Bytes → Bytes → W → Result (Unit {0}) × W
  write_file_write_only name bts = write_file name bts file_w

  exists_info : FileInfo → Bool
  exists_info (found regular) = true
  exists_info missing = false
  exists_info (failed e) = true

  unfoldable pub file_exists : Bytes → W → Bool
  unfolding exists_info
  file_exists name w = exists_info (os.stat name w)

  regular_info : FileInfo → Bool
  regular_info (found regular) = regular
  regular_info missing = false
  regular_info (failed e) = false

  unfoldable pub is_regular : Bytes → W → Bool
  unfolding regular_info
  is_regular name w = regular_info (os.stat name w)

  abbrev pub backup_name : Bytes → Bytes
  backup_name name = name ++ str ".bak"

  -- The backup is gone: the file is copied to it and then written.
  pub replace : Bytes → Bytes → W → Result (Unit {0}) × W
  replace name bts w =
      and_then (os.read_file name w, w)
        λ old w. and_then (write_file_rw (backup_name name) old w) λ _ w. write_file_rw name bts w

  pub clear_backup : Bytes → Bytes → W → FileInfo → Result (Unit {0}) × W
  clear_backup name bts w (failed e) = (err e, w)
  clear_backup name bts w missing = replace name bts w
  clear_backup name bts w (found true) =
      and_then (os.remove (backup_name name) w) λ _ w. replace name bts w
  clear_backup name bts w (found false) = (err (Error.not_regular (backup_name name)), w)

  -- The call drops the error but not a panic.
  dropped : Result (Unit {0}) × W → Result (Unit {0}) × W
  dropped (ok u, w) = (ok u, w)
  dropped (err e, w) = (ok tt, w)
  dropped (panic, w) = (panic, w)

  pub back_up : Bytes → Bytes → W → FileInfo → Result (Unit {0}) × W
  back_up name bts w (failed e) = (err e, w)
  back_up name bts w missing = dropped (write_file_rw name bts w)
  back_up name bts w (found true) = clear_backup name bts w (os.stat (backup_name name) w)
  back_up name bts w (found false) = (err (Error.not_regular name), w)

  unfoldable pub write_and_backup : Bytes → Bytes → W → Result (Unit {0}) × W
  write_and_backup name bts w = back_up name bts w (os.stat name w)
