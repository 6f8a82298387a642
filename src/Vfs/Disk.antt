-- ===== src/Vfs/Disk.antt =====
-- src/vfs.rs: opening and writing back, over the file system below.
use macha_os.Prelude.{
  Result, ok, err, ℕ, ◌≡◌, refl, sym, ap, ◌∙◌, Bool, true, false, List, if◌then◌else◌,
}
use macha_os.Fat.{Device, Fault, error, panic, FatError, Step, done, next_step, ◌>>=◌}
use macha_os.Fat.Entries.{DateTime}
use macha_os.Fat.Mount.{World, is_dir, read_file}
use macha_os.Fat.Geometry.{Keeps->>=, Keeps-if}
use macha_os.Fat.ReadOnly.{IsReadOnly, read_file-IsReadOnly, is_dir-IsReadOnly}
use macha_os.Vfs.{
  directory_handle, file_handle, o_creat, has, FileHandle, VfsError, open_file, flush, drop_handle,
  known_dir, opened_file, catch, caught,
}

abbrev is_dirty : Result VfsError FileHandle → Bool
is_dirty (ok h) = h.dirty
is_dirty (err e) = false

if-is_dirty :
    (b : Bool) (x y : Result VfsError FileHandle)
    → is_dirty x ≡ false
    → is_dirty y ≡ false
    → is_dirty (if b then x else y) ≡ false
if-is_dirty true x y ex ey = ex
if-is_dirty false x y ex ey = ey

opened_file-is_dirty :
    (path : List ℕ) (flags : ℕ) (r : Result FatError (List ℕ))
    → is_dirty (opened_file path flags r) ≡ false
unfolding opened_file file_handle
opened_file-is_dirty path flags (ok bytes) = refl
opened_file-is_dirty path flags (err FatError.not_found) =
    if-is_dirty (has flags o_creat) _ _ refl refl
opened_file-is_dirty path flags (err FatError.no_disk) = refl
opened_file-is_dirty path flags (err (FatError.io message)) = refl
opened_file-is_dirty path flags (err FatError.invalid_volume) = refl
opened_file-is_dirty path flags (err FatError.not_dir) = refl
opened_file-is_dirty path flags (err FatError.already_exists) = refl
opened_file-is_dirty path flags (err FatError.not_empty) = refl
opened_file-is_dirty path flags (err FatError.invalid_name) = refl
opened_file-is_dirty path flags (err FatError.out_of_space) = refl
opened_file-is_dirty path flags (err FatError.corrupt) = refl

-- Whether the outcome of a step is a handle that is dirty.
abbrev outcome : {S : Type 0} → Result Fault (Result VfsError FileHandle) × S → Bool
outcome (ok r, s) = is_dirty r
outcome (err e, s) = false

outcome-next_step :
    {S A : Type 0} (f : A → Step S (Result VfsError FileHandle)) (r : Result Fault A × S)
    → ((a : A) (s : S) → outcome (f a s) ≡ false)
    → outcome (next_step f r) ≡ false
outcome-next_step f (ok a, s) h = h a s
outcome-next_step f (err e, s) h = refl

catch-IsReadOnly : {S A : Type 0} (m : Step S A) → IsReadOnly m → IsReadOnly (catch m)
catch-IsReadOnly {S = S} {A = A} m h w = same (m w) ∙ h w
  where
    same : (r : Result Fault A × S) → (caught r).1 ≡ r.1
    same (ok a, s) = refl
    same (err (error e), s) = refl
    same (err panic, s) = refl

module _ (dev : Device) where
  open_file-outcome :
      (path : List ℕ) (flags : ℕ) (w : World dev) → outcome (open_file dev path flags w) ≡ false
  unfolding open_file directory_handle ◌>>=◌
  open_file-outcome path flags w =
      outcome-next_step _ (catch (is_dir dev path) w) (λ d s. opened (known_dir d) s)
    where
      opened :
          (b : Bool) (s : World dev)
          → outcome (
              (if b
                  then done (ok (directory_handle path))
                  else catch (read_file dev path) >>= λ r. done (opened_file path flags r))
                s)
            ≡ false
      opened true s = refl
      opened false s =
          outcome-next_step _ (catch (read_file dev path) s)
            (λ r u. opened_file-is_dirty path flags r)

  open_file-IsReadOnly : (path : List ℕ) (flags : ℕ) → IsReadOnly (open_file dev path flags)
  unfolding open_file
  open_file-IsReadOnly path flags =
      Keeps->>= (λ w. w) (catch (is_dir dev path)) _
        (catch-IsReadOnly (is_dir dev path) (is_dir-IsReadOnly dev path))
        (λ d.
          Keeps-if (λ w. w) (known_dir d) _ _ (λ w. refl)
            (Keeps->>= (λ w. w) (catch (read_file dev path)) _
              (catch-IsReadOnly (read_file dev path) (read_file-IsReadOnly dev path))
              (λ r w. refl)))

  -- Where `open` gives a handle, whatever the flags, dropping that handle with no write before
  -- succeeds, and the mounted volume and the disk are then what they were before the `open`:
  -- `O_CREAT` alone creates no file, and `O_TRUNC` alone discards no content.
  pub drop-open_file :
      (now : DateTime) (path : List ℕ) (flags : ℕ) (w w' : World dev) (h : FileHandle)
      → open_file dev path flags w ≡ (ok (ok h), w')
      → drop_handle dev now h w' ≡ (ok tt, w)
  unfolding drop_handle flush ◌>>=◌
  drop-open_file now path flags w w' h e =
      rw (drop_handle, flush, clean)
        (ap (λ u. (ok tt, u)) (sym (ap (λ r. r.1) e) ∙ open_file-IsReadOnly path flags w))
    where
      clean : h.dirty ≡ false
      clean = sym (ap outcome e) ∙ open_file-outcome path flags w
