-- ===== src/Prelude/Bytes.antt =====
-- Byte slices: checked ranges and little-endian numbers.
use Prim.Native.Nat.{ℕ, zero, suc, ◌+◌, ◌-◌, ◌*◌, ◌/◌, ◌%◌}
use mathlib.Core.Bool.{◌&&◌}
use mathlib.Core.List.{List, [], ◌∷◌}
use mathlib.Core.Option.{Option, none, some}
use macha_os.Prelude.Tests.{leb, if◌then◌else◌}
use macha_os.Prelude.Lists.{length, take, drop}

-- `data.get(from..to)`
abbrev pub get_range : List ℕ → ℕ → ℕ → Option (List ℕ)
get_range xs from to =
    if leb from to && leb to (length xs) then some (take (to - from) (drop from xs)) else none

-- `from_le_bytes`, at the length of the slice.
abbrev pub from_le_bytes : List ℕ → ℕ
from_le_bytes [] = 0
from_le_bytes (b ∷ bs) = b + 256 * from_le_bytes bs

-- `to_le_bytes` of a number of `n` bytes.
abbrev pub to_le_bytes : ℕ → ℕ → List ℕ
to_le_bytes zero v = []
to_le_bytes (suc n) v = v % 256 ∷ to_le_bytes n (v / 256)
