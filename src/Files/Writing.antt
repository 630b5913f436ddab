-- ===== src/Files/Writing.antt =====
-- What `WriteFile` of files/files.go does to the files, over an operating system with contents.
use eris_db.Base.{
  ◌≡◌, ◌≢◌, refl, ◌∙◌, sym, ap, subst, Bytes, Option, none, some, [], ◌++◌, Result, ok, err, panic,
  and_then, ℕ,
}
use eris_db.Files.{FileInfo, Os, written, write_open, write_file}

-- What the code relies on: the calls change one file, `Create` empties it, and `Write` appends all
-- of its argument or returns an error.
pub record IsLawful {W F : Type 0} (os : Os W F) (content : W → Bytes → Option Bytes)
    (name_of : F → Bytes) : Type 0 where
  pub create-name : (n : Bytes) (w : W) (f : F) → (os.create n w).0 ≡ ok f → name_of f ≡ n
  pub create-content :
      (n : Bytes) (w : W) (f : F) → (os.create n w).0 ≡ ok f → content (os.create n w).1 n ≡ some []
  pub create-other : (n k : Bytes) (w : W) → n ≢ k → content (os.create n w).1 k ≡ content w k
  pub write-content :
      (f : F) (bts old : Bytes) (w : W) (n : ℕ)
      → content w (name_of f) ≡ some old
      → (os.write f bts w).0 ≡ ok n
      → content (os.write f bts w).1 (name_of f) ≡ some (old ++ bts)
  pub write-other :
      (f : F) (bts k : Bytes) (w : W) → name_of f ≢ k → content (os.write f bts w).1 k ≡ content w k
  pub close-content : (f : F) (k : Bytes) (w : W) → content (os.close f w).1 k ≡ content w k
  pub remove-other : (n k : Bytes) (w : W) → n ≢ k → content (os.remove n w).1 k ≡ content w k
  pub read-content : (n bts : Bytes) (w : W) → os.read_file n w ≡ ok bts → content w n ≡ some bts
  pub stat-missing : (n : Bytes) (w : W) → os.stat n w ≡ FileInfo.missing → content w n ≡ none

module _ {W F : Type 0} (os : Os W F) (content : W → Bytes → Option Bytes) (name_of : F → Bytes)
    (lawful : IsLawful os content name_of) where
  write_open-other :
      (bts k : Bytes) (f : F) (w : W)
      → name_of f ≢ k
      → content (write_open os bts f w).1 k ≡ content w k
  unfolding write_open
  write_open-other bts k f w h = lawful.close-content f k _ ∙ lawful.write-other f bts k w h

  -- A write that returns has written everything.
  written-ok : (bts : Bytes) (r : Result ℕ) → written bts r ≡ ok tt → (n : ℕ) × (r ≡ ok n)
  unfolding written
  written-ok bts (ok n) h = (n, refl)
  written-ok bts (err e) h = (let bad : ⊥ = cc in absurd bad)
  written-ok bts panic h = (let bad : ⊥ = cc in absurd bad)

  write_open-content :
      (bts : Bytes) (f : F) (w : W)
      → content w (name_of f) ≡ some []
      → (write_open os bts f w).0 ≡ ok tt
      → content (write_open os bts f w).1 (name_of f) ≡ some bts
  unfolding write_open
  write_open-content bts f w empty h =
      let (n, all) = written-ok bts (os.write f bts w).0 h in
      lawful.close-content f (name_of f) _ ∙ lawful.write-content f bts [] w n empty all

  opened-other :
      (name bts k : Bytes) (w : W) (r : Result F)
      → ((f : F) → r ≡ ok f → name_of f ≡ name)
      → name ≢ k
      → content (and_then (r, w) (write_open os bts)).1 k ≡ content w k
  opened-other name bts k w (ok f) named h =
      write_open-other bts k f w (λ e. h (sym (named f refl) ∙ e))
  opened-other name bts k w (err e) named h = refl
  opened-other name bts k w panic named h = refl

  pub write_file-other :
      (name bts k : Bytes) (perm : ℕ) (w : W)
      → name ≢ k
      → content (write_file os name bts perm w).1 k ≡ content w k
  unfolding write_file
  write_file-other name bts k perm w h =
      opened-other name bts k (os.create name w).1 (os.create name w).0 (lawful.create-name name w)
        h
      ∙ lawful.create-other name k w h

  opened-content :
      (name bts : Bytes) (w : W) (r : Result F)
      → ((f : F) → r ≡ ok f → (name_of f ≡ name) × (content w name ≡ some []))
      → (and_then (r, w) (write_open os bts)).0 ≡ ok tt
      → content (and_then (r, w) (write_open os bts)).1 name ≡ some bts
  opened-content name bts w (ok f) named h =
      let (same, empty) = named f refl in
      subst (λ n. content (write_open os bts f w).1 n ≡ some bts) same
        (write_open-content bts f w (ap (content w) same ∙ empty) h)
  opened-content name bts w (err e) named h = cc
  opened-content name bts w panic named h = cc

  pub write_file-content :
      (name bts : Bytes) (perm : ℕ) (w : W)
      → (write_file os name bts perm w).0 ≡ ok tt
      → content (write_file os name bts perm w).1 name ≡ some bts
  unfolding write_file
  write_file-content name bts perm w h =
      opened-content name bts (os.create name w).1 (os.create name w).0
        (λ f e. (lawful.create-name name w f e, lawful.create-content name w f e)) h
