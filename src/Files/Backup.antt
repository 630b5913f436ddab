-- ===== src/Files/Backup.antt =====
-- What `WriteAndBackup` of files/files.go leaves of a file that it replaces.
use eris_db.Base.{
  ◌≡◌, ◌≢◌, refl, ◌∙◌, sym, ap, ◌⊎◌, inl, inr, true, false, Bytes, str, Option, some, ◌++◌, Result,
  ok, err, panic, and_then, length, length-append, arith,
}
use eris_db.Files.{
  FileInfo, Os, file_rw, write_file_rw, backup_name, replace, clear_backup, back_up,
  write_and_backup,
}
use eris_db.Files.Writing.{IsLawful, write_file-other, write_file-content}

module _ {W F : Type 0} (os : Os W F) where
  pub backup_name-other : (name : Bytes) → backup_name os name ≢ name
  backup_name-other name e =
      let same : length (name ++ str ".bak") ≡ length name = ap length e in
      absurd (omega (arith, same, length-append name (str ".bak")))

  -- What a name held is now in the backup, and the name holds the new bytes; after an error or a
  -- panic, one of the two still holds what the name held.
  abbrev pub After :
      (W → Bytes → Option Bytes) → Bytes → Bytes → Bytes → Result (Unit {0}) × W → Type 0
  After content name bts old (ok u, w) =
      (content w name ≡ some bts) × (content w (backup_name os name) ≡ some old)
  After content name bts old (_, w) =
      (content w name ≡ some old) ⊎ (content w (backup_name os name) ≡ some old)

module _ {W F : Type 0} (os : Os W F) (content : W → Bytes → Option Bytes) (name_of : F → Bytes)
    (lawful : IsLawful os content name_of) (name bts old : Bytes) where
  written-After :
      (r : Result (Unit {0})) (w : W)
      → (r ≡ ok tt → content w name ≡ some bts)
      → content w (backup_name os name) ≡ some old
      → After os content name bts old (r, w)
  written-After (ok tt) w new kept = (new refl, kept)
  written-After (err e) w new kept = inr kept
  written-After panic w new kept = inr kept

  copied-After :
      (r : Result (Unit {0})) (w : W)
      → (r ≡ ok tt → content w (backup_name os name) ≡ some old)
      → content w name ≡ some old
      → After os content name bts old (and_then (r, w) λ _ w. write_file_rw os name bts w)
  unfolding write_file_rw
  copied-After (ok tt) w saved kept =
      let (r, w2) = write_file_rw os name bts w in
      written-After r w2 (write_file-content os content name_of lawful name bts file_rw w) (
        write_file-other os content name_of lawful name bts (backup_name os name) file_rw w
          (λ e. backup_name-other os name (sym e))
        ∙ saved refl)
  copied-After (err e) w saved kept = inl kept
  copied-After panic w saved kept = inl kept

  read-After :
      (r : Result Bytes) (w : W)
      → ((b : Bytes) → r ≡ ok b → b ≡ old)
      → content w name ≡ some old
      → After os content name bts old (
          and_then
            (r, w)
            λ b w.
              and_then
                (write_file_rw os (backup_name os name) b w)
                λ _ w. write_file_rw os name bts w)
  unfolding write_file_rw
  read-After (ok b) w same kept =
      let (r, w2) = write_file_rw os (backup_name os name) b w in
      copied-After r w2
        (λ e.
          write_file-content os content name_of lawful (backup_name os name) b file_rw w e
          ∙ ap some (same b refl))
        (write_file-other os content name_of lawful (backup_name os name) b name file_rw w
            (backup_name-other os name)
          ∙ kept)
  read-After (err e) w same kept = inl kept
  read-After panic w same kept = inl kept

  replace-After :
      (w : W) → content w name ≡ some old → After os content name bts old (replace os name bts w)
  unfolding replace
  replace-After w kept =
      read-After (os.read_file name w) w (λ b e. let read = lawful.read-content name b w e in cc)
        kept

  removed-After :
      (r : Result (Unit {0})) (w : W)
      → content w name ≡ some old
      → After os content name bts old (and_then (r, w) λ _ w. replace os name bts w)
  removed-After (ok u) w kept = replace-After w kept
  removed-After (err e) w kept = inl kept
  removed-After panic w kept = inl kept

  clear_backup-After :
      (w : W) (info : FileInfo)
      → content w name ≡ some old
      → After os content name bts old (clear_backup os name bts w info)
  unfolding clear_backup
  clear_backup-After w (FileInfo.failed e) kept = inl kept
  clear_backup-After w FileInfo.missing kept = replace-After w kept
  clear_backup-After w (FileInfo.found true) kept =
      let (r, w2) = os.remove (backup_name os name) w in
      removed-After r w2
        (lawful.remove-other (backup_name os name) name w (backup_name-other os name) ∙ kept)
  clear_backup-After w (FileInfo.found false) kept = inl kept

  back_up-After :
      (w : W) (info : FileInfo)
      → os.stat name w ≡ info
      → content w name ≡ some old
      → After os content name bts old (back_up os name bts w info)
  unfolding back_up
  back_up-After w (FileInfo.failed e) h kept = inl kept
  back_up-After w FileInfo.missing h kept =
      let gone = lawful.stat-missing name w h in (let bad : ⊥ = cc in absurd bad)
  back_up-After w (FileInfo.found true) h kept =
      clear_backup-After w (os.stat (backup_name os name) w) kept
  back_up-After w (FileInfo.found false) h kept = inl kept

  -- Where a file holds some bytes, `WriteAndBackup` loses them in no case: if it returns no error,
  -- the file holds the new bytes and the backup the old ones, and if it returns an error or panics,
  -- the file or its backup still holds the old ones. The operating system is assumed to change one
  -- file at a time, to empty it when it is created, and to write all bytes or return an error.
  pub write_and_backup-After :
      (w : W)
      → content w name ≡ some old
      → After os content name bts old (write_and_backup os name bts w)
  unfolding write_and_backup
  write_and_backup-After w kept = back_up-After w (os.stat name w) refl kept
