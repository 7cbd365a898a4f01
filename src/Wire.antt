-- ===== src/Wire.antt =====
-- common/include: the structs of the commands, as the guest's libraries, its kernel module and the
-- backend lay them out in memory.
pub mod Bytes
pub mod Layout
pub mod Readers
pub mod Types
pub mod Runtime
pub mod Properties
pub mod Driver
pub mod DriverVmm
pub mod RuntimeRequests
pub mod DriverRequests
pub mod Requests
pub mod Sizes
use Prim.Native.Nat.{max}
use hm_cuda.Prelude.{ℕ, zero, suc, ◌+◌, ◌-◌, ◌%◌, List, [], ◌∷◌}

-- The types of the members, each aligned to its width.
pub data Scalar : Type 0 where
  byte int32 uint32 float32 uint64 : Scalar

abbrev pub width : Scalar → ℕ
width byte = 1
width int32 = 4
width uint32 = 4
width float32 = 4
width uint64 = 8

-- The members in their order, those of a nested struct and of an array one by one. A nested struct
-- here begins aligned and has no padding behind it, so this is its layout too.
abbrev pub Struct : Type 0
Struct = List Scalar

abbrev pub array : ℕ → Scalar → Struct
array zero t = []
array (suc n) t = t ∷ array n t

-- The padding that aligns an offset to a width.
abbrev pub gap : ℕ → ℕ → ℕ
gap off w = (w - off % w) % w

-- The offset behind the members that start at or after an offset.
abbrev pub end_of : ℕ → Struct → ℕ
end_of off [] = off
end_of off (t ∷ ts) = end_of (off + gap off (width t) + width t) ts

-- The alignment of a struct is that of its widest member.
abbrev pub alignment : Struct → ℕ
alignment [] = 1
alignment (t ∷ ts) = max (width t) (alignment ts)

abbrev pub sizeof : Struct → ℕ
sizeof ts = end_of 0 ts + gap (end_of 0 ts) (alignment ts)
