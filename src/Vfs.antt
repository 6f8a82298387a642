-- ===== src/Vfs.antt =====
-- src/vfs.rs: open files as private copies of their contents with a cursor, written back on close.
-- The operations of src/fat.rs that vfs.rs calls are those of Fat/Mount. Offsets are `u64` and `i64` bit patterns, below 2 ^ 64; their sums wrap. `none` stands for a
-- panic of the kernel. That a `Vec` holds fewer than 2 ^ 63 bytes is taken as given: a write past that,
-- where the code panics, is not modelled.
pub mod Bytes
pub mod Access
pub mod Disk
mod Tests
use Prim.Native.Nat.{bit_and}
use macha_os.Fat.{Device, Fault, FatError, error, panic, Step, done, ◌>>=◌}
use macha_os.Fat.Entries.{DateTime}
use macha_os.Fat.Mount.{World, is_dir as path_is_dir, read_file, write_file}
use macha_os.Prelude.{
  Result, ok, err, ℕ, ◌+◌, ◌-◌, ◌^◌, min, Bool, true, false, not, ◌||◌, Option, none, some, List,
  [], ◌++◌, take, drop, length, replicate, ltb, leb, add64, ◌==◌, if◌then◌else◌,
}

pub data VfsError : Type 0 where
  no_disk not_found not_dir is_dir already_exists not_empty invalid_name out_of_space corrupt io :
      VfsError

unfoldable pub from_fat : FatError → VfsError
from_fat FatError.no_disk = VfsError.no_disk
from_fat FatError.not_found = VfsError.not_found
from_fat FatError.not_dir = VfsError.not_dir
from_fat FatError.already_exists = VfsError.already_exists
from_fat FatError.not_empty = VfsError.not_empty
from_fat FatError.invalid_name = VfsError.invalid_name
from_fat FatError.out_of_space = VfsError.out_of_space
from_fat FatError.corrupt = VfsError.corrupt
from_fat FatError.invalid_volume = VfsError.io
from_fat (FatError.io message) = VfsError.io

pub data SeekFrom : Type 0 where
  start current end : ℕ → SeekFrom

pub record Stat : Type 0 where
  pub size : ℕ
  pub is_dir : Bool
  pub ino : ℕ

abbrev pub o_wronly : ℕ
o_wronly = 1

abbrev pub o_rdwr : ℕ
o_rdwr = 2

abbrev pub o_creat : ℕ
o_creat = 4

abbrev pub o_trunc : ℕ
o_trunc = 8

abbrev pub o_append : ℕ
o_append = 16

abbrev pub has : ℕ → ℕ → Bool
has flags mask = not (bit_and flags mask == 0)

pub record FileHandle : Type 0 where
  pub path : List ℕ
  pub contents : List ℕ
  pub cursor : ℕ
  pub dirty : Bool
  pub writable : Bool
  pub is_dir : Bool

unfoldable pub directory_handle : List ℕ → FileHandle
directory_handle path = record {
  path = path;
  contents = [];
  cursor = 0;
  dirty = false;
  writable = false;
  is_dir = true;
}

unfoldable pub file_handle : List ℕ → ℕ → List ℕ → FileHandle
file_handle path flags bytes = record {
  path = path;
  contents = bytes;
  cursor = if has flags o_append then length bytes else 0;
  dirty = false;
  writable = has flags (o_wronly + o_rdwr);
  is_dir = false;
}

-- The match on what `fat::read_file` returns.
unfoldable pub opened_file : List ℕ → ℕ → Result FatError (List ℕ) → Result VfsError FileHandle
unfolding file_handle
opened_file path flags (ok bytes) =
    ok (file_handle path flags (if has flags o_trunc then [] else bytes))
opened_file path flags (err FatError.not_found) =
    if has flags o_creat then ok (file_handle path flags []) else err VfsError.not_found
opened_file path flags (err e) = err (from_fat e)

-- `is_dir(path).unwrap_or(false)`
abbrev known_dir : Result FatError Bool → Bool
known_dir (ok b) = b
known_dir (err e) = false

-- An error of `fat` as a value; a panic goes on.
abbrev pub caught : {S A : Type 0} → Result Fault A × S → Result Fault (Result FatError A) × S
caught (ok a, s) = (ok (ok a), s)
caught (err (error e), s) = (ok (err e), s)
caught (err panic, s) = (err panic, s)

abbrev pub catch : {S A : Type 0} → Step S A → Step S (Result FatError A)
catch m s = caught (m s)

-- The world is that of `fat`: the mounted volume and the disk. `now` is what the clock reads at a write.
module _ (dev : Device) where
  unfoldable pub open_file : List ℕ → ℕ → Step (World dev) (Result VfsError FileHandle)
  unfolding opened_file directory_handle
  open_file path flags = catch (path_is_dir dev path) >>= λ d.
      if known_dir d
      then done (ok (directory_handle path))
      else catch (read_file dev path) >>= λ r. done (opened_file path flags r)

  abbrev written_back :
      FileHandle → Result FatError (Unit {0}) → Result VfsError (Unit {0}) × FileHandle
  written_back h (ok u) = (ok tt, record h { dirty = false })
  written_back h (err e) = (err (from_fat e), h)

  unfoldable pub flush :
      DateTime → FileHandle → Step (World dev) (Result VfsError (Unit {0}) × FileHandle)
  flush now h =
      if h.dirty
      then (catch (write_file dev now h.path h.contents) >>= λ r. done (written_back h r))
      else done (ok tt, h)

  -- `Drop`: the result of the flush is discarded.
  unfoldable pub drop_handle : DateTime → FileHandle → Step (World dev) (Unit {0})
  unfolding flush
  drop_handle now h = flush now h >>= λ r. done tt

-- What is copied into the buffer of `buf_len` bytes; a slice that starts past the end panics.
unfoldable pub read : FileHandle → ℕ → Option (List ℕ × FileHandle)
read h buf_len =
    let n = min (length h.contents - h.cursor) buf_len in
    if h.is_dir
    then some ([], h)
    else if leb h.cursor (length h.contents)
    then some (take n (drop h.cursor h.contents), record h { cursor = h.cursor + n })
    else none

-- `data.resize(end, 0)` if the file is shorter.
abbrev pub extend_to : ℕ → List ℕ → List ℕ
extend_to stop bytes = bytes ++ replicate (stop - length bytes) 0

unfoldable pub write : FileHandle → List ℕ → Result VfsError ℕ × FileHandle
write h buf =
    let stop = add64 h.cursor (length buf) in
    let resized = extend_to stop h.contents in
    if h.is_dir || not h.writable then (err VfsError.is_dir, h) else (
      ok (length buf),
      record h {
        contents = take h.cursor resized ++ (buf ++ drop stop resized);
        cursor = stop;
        dirty = true;
      },
    )

-- `base.max(0) as usize`: a pattern from 2 ^ 63 on is a negative number.
abbrev pub clamp_negative : ℕ → ℕ
clamp_negative base = if ltb base (2 ^ 63) then base else 0

unfoldable pub seek : FileHandle → SeekFrom → ℕ × FileHandle
seek h (start p) = let c = clamp_negative p in (c, record h { cursor = c })
seek h (current p) = let c = clamp_negative (add64 h.cursor p) in (c, record h { cursor = c })
seek h (end p) =
    let c = clamp_negative (add64 (length h.contents) p) in (c, record h { cursor = c })
