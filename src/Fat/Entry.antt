-- ===== src/Fat/Entry.antt =====
-- `FatType` and `FatEntry` of kernel/src/fs/fat.rs.
use emerald.Prelude.{ℕ, ◌+◌, ◌<◌, ◌≡◌, ◌&&◌, Option, none, some, arith, leb, ◌==◌, if◌then◌else◌}

pub data FatType : Type 0 where
  fat12 fat16 fat32 : FatType

pub data FatEntry : Type 0 where
  free : FatEntry
  next : ℕ → FatEntry
  end_of_chain : FatEntry
  bad : FatEntry
  reserved : FatEntry

-- The largest entry that points to a cluster, for each type: 0xFF6, 0xFFF6, 0x0FFF_FFF6. `Bad` is one
-- more, and `EndOfChain` is two more.
abbrev pub last_cluster : FatType → ℕ
last_cluster fat12 = 0xFF6
last_cluster fat16 = 0xFFF6
last_cluster fat32 = 0x0FFF_FFF6

unfoldable pub from_u32 : FatType → ℕ → FatEntry
from_u32 ty entry =
    if entry == 0
    then free
    else if leb (last_cluster ty + 2) entry
    then end_of_chain
    else if entry == last_cluster ty + 1
    then bad
    else if leb 2 entry && leb entry (last_cluster ty)
    then next entry
    else reserved

unfoldable pub to_u32 : FatEntry → FatType → Option ℕ
to_u32 free ty = some 0
to_u32 end_of_chain ty = some (last_cluster ty + 2)
to_u32 bad ty = some (last_cluster ty + 1)
to_u32 (next entry) ty = if leb 2 entry && leb entry (last_cluster ty) then some entry else none
to_u32 reserved ty = none

-- What can be written is read back.
pub from_u32-to_u32 :
    (ty : FatType) (e : FatEntry) (n : ℕ) → to_u32 e ty ≡ some n → from_u32 ty n ≡ e
unfolding from_u32 to_u32
from_u32-to_u32 ty free n h = ground (arith, h)
from_u32-to_u32 fat12 end_of_chain n h = ground (arith, h)
from_u32-to_u32 fat16 end_of_chain n h = ground (arith, h)
from_u32-to_u32 fat32 end_of_chain n h = ground (arith, h)
from_u32-to_u32 fat12 bad n h = ground (arith, h)
from_u32-to_u32 fat16 bad n h = ground (arith, h)
from_u32-to_u32 fat32 bad n h = ground (arith, h)
from_u32-to_u32 fat12 (next k) n h = ground (arith, h)
from_u32-to_u32 fat16 (next k) n h = ground (arith, h)
from_u32-to_u32 fat32 (next k) n h = ground (arith, h)
from_u32-to_u32 ty reserved n h = cc

-- What is written fits the bits of an entry of its type.
pub to_u32-lt :
    (ty : FatType) (e : FatEntry) (n : ℕ) → to_u32 e ty ≡ some n → n < last_cluster ty + 10
unfolding to_u32
to_u32-lt fat12 e n h = ground (arith, h)
to_u32-lt fat16 e n h = ground (arith, h)
to_u32-lt fat32 e n h = ground (arith, h)
