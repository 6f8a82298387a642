-- ===== src/Fat.antt =====
-- src/fat.rs: the FAT32 volume over a block device.
-- `Fat32` has the fields of the code's struct but for the device, which src/ata.rs drives by port input
-- and output: its sectors are the interface `Device`. Every operation takes and returns the
-- volume and the device, also when it fails: what was changed in memory stays changed. A
-- cluster number that is no index of the cached table is a panic.
pub mod Table
pub mod Alloc
pub mod Release
pub mod Names
pub mod LongEntries
pub mod LongNames
pub mod Entries
pub mod Directory
pub mod Shortage
pub mod Geometry
pub mod Flush
pub mod ReadOnly
pub mod ReadBack
pub mod FreeRun
pub mod Contents
pub mod Files
pub mod Mount
mod Tests
use macha_os.Prelude.{ℕ, ◌+◌, ◌-◌, ◌*◌, ◌%◌, ◌^◌, Bool, List, leb, if◌then◌else◌, Result, ok, err}
use Prim.Native.String.{String}

pub data FatError : Type 0 where
  no_disk : FatError
  io : String → FatError
  invalid_volume not_found not_dir already_exists not_empty invalid_name out_of_space corrupt :
      FatError

pub data Fault : Type 0 where
  error : FatError → Fault
  panic : Fault

-- `AtaDevice` at one sector of 512 bytes, by its number.
pub record Device : Type 1 where
  pub Disk : Type 0
  pub read_sector : Disk → ℕ → Result String (List ℕ)
  pub write_sector : Disk → ℕ → List ℕ → Result String (Unit {0}) × Disk

abbrev pub eof_mark : ℕ
eof_mark = 0x0fffffff

-- `entry & CLUSTER_MASK`
abbrev pub masked : ℕ → ℕ
masked entry = entry % 2 ^ 28

abbrev pub chain_guard : ℕ
chain_guard = 1000000

abbrev pub max_name : ℕ
max_name = 128

pub record Fat32 : Type 0 where
  pub sectors_per_cluster : ℕ
  pub reserved_sectors : ℕ
  pub fat_count : ℕ
  pub fat_size_sectors : ℕ
  pub root_cluster : ℕ
  pub first_data_sector : ℕ
  pub total_sectors : ℕ
  pub fat : List ℕ
  pub fat_dirty : List Bool
  pub free_clusters : ℕ

abbrev pub is_eof : ℕ → Bool
is_eof cluster = leb eof_mark cluster

-- On `u32`, with its wrap-around.
abbrev pub cluster_to_sector : Fat32 → ℕ → ℕ
cluster_to_sector v cluster =
    (v.first_data_sector + (cluster + 2 ^ 32 - 2) % 2 ^ 32 * v.sectors_per_cluster) % 2 ^ 32

-- A step on a state that comes back with the result, also with an error.
abbrev pub Step : Type 0 → Type 0 → Type 0
Step S A = S → Result Fault A × S

abbrev pub done : {S A : Type 0} → A → Step S A
done a s = (ok a, s)

abbrev pub fail : {S A : Type 0} → Fault → Step S A
fail e s = (err e, s)

abbrev pub next_step : {S A B : Type 0} → (A → Step S B) → Result Fault A × S → Result Fault B × S
next_step f (ok a, s) = f a s
next_step f (err e, s) = (err e, s)

infixl 5 ◌>>=◌ ◌>>◌
unfoldable pub ◌>>=◌ : {S A B : Type 0} → Step S A → (A → Step S B) → Step S B
(m >>= f) s = next_step f (m s)

abbrev pub ◌>>◌ : {S B : Type 0} → Step S (Unit {0}) → Step S B → Step S B
m >> k = m >>= λ _. k

abbrev pub fail_if : {S : Type 0} → Bool → FatError → Step S (Unit {0})
fail_if wrong e s = (if wrong then err (error e) else ok tt, s)
