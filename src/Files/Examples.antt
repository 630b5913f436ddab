-- ===== src/Files/Examples.antt =====
-- A system of files that are all regular, on which every call succeeds.
use eris_db.Base.{
  ◌≡◌, ◌≢◌, refl, ap, ◌∙◌, Bytes, bytes_eq, bytes_eq_refl, bytes_eq_iff, str, Option, none, some,
  ◌++◌, [], Result, ok, err, Error, if◌then◌else◌, length, Bool, true, false,
}
use eris_db.Files.{FileInfo, Os, write_and_backup}
use eris_db.Files.Writing.{IsLawful}
use eris_db.Files.Backup.{After, write_and_backup-After}

abbrev Disk : Type 0
Disk = Bytes → Option Bytes

abbrev put : Bytes → Option Bytes → Disk → Disk
put n v w = λ k. if bytes_eq n k then v else w k

abbrev info_of : Option Bytes → FileInfo
info_of (some _) = FileInfo.found true
info_of none = FileInfo.missing

abbrev read : Option Bytes → Result Bytes
read (some bts) = ok bts
read none = err (Error.other_error (str "no such file"))

abbrev grown : Bytes → Option Bytes → Option Bytes
grown bts (some old) = some (old ++ bts)
grown bts none = none

abbrev disk : Os Disk Bytes
disk = record {
  create = λ n w. (ok n, put n (some []) w);
  write = λ n bts w. (ok (length bts), put n (grown bts (w n)) w);
  close = λ _ w. (ok tt, w);
  stat = λ n w. info_of (w n);
  remove = λ n w. (ok tt, put n none w);
  read_file = λ n w. read (w n);
}

put-same : (n : Bytes) (v : Option Bytes) (w : Disk) → put n v w n ≡ v
put-same n v w = rw (bytes_eq_refl n)

bytes_differ : (n k : Bytes) (b : Bool) → bytes_eq n k ≡ b → n ≢ k → b ≡ false
bytes_differ n k true e h = absurd (h ((bytes_eq_iff n k).0 e))
bytes_differ n k false e h = refl

put-other : (n k : Bytes) (v : Option Bytes) (w : Disk) → n ≢ k → put n v w k ≡ w k
put-other n k v w h = rw (bytes_differ n k (bytes_eq n k) refl h)

read-some : (o : Option Bytes) (bts : Bytes) → read o ≡ ok bts → o ≡ some bts
read-some (some b) bts h = cc
read-some none bts h = cc

info_of-missing : (o : Option Bytes) → info_of o ≡ FileInfo.missing → o ≡ none
info_of-missing (some b) h = cc
info_of-missing none h = refl

disk-IsLawful : IsLawful disk (λ w n. w n) (λ n. n)
disk-IsLawful = record {
  create-name = λ n w f e. cc;
  create-content = λ n w f e. put-same n (some []) w;
  create-other = λ n k w h. put-other n k (some []) w h;
  write-content = λ n bts old w c held e. put-same n (grown bts (w n)) w ∙ ap (grown bts) held;
  write-other = λ n bts k w h. put-other n k (grown bts (w n)) w h;
  close-content = λ n k w. refl;
  remove-other = λ n k w h. put-other n k none w h;
  read-content = λ n bts w e. read-some (w n) bts e;
  stat-missing = λ n w e. info_of-missing (w n) e;
}

abbrev before : Disk
before = put (str "a") (some (str "old")) (put (str "a.bak") (some (str "older")) (λ _. none))

write_and_backup-After_example :
    After disk
      (λ w n. w n)
      (str "a")
      (str "new")
      (str "old")
      (write_and_backup disk (str "a") (str "new") before)
unfolding bytes_eq
write_and_backup-After_example =
    write_and_backup-After disk (λ w n. w n) (λ n. n) disk-IsLawful (str "a") (str "new")
      (str "old") before refl
