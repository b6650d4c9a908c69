-- ===== src/Common/Bytes.antt =====
-- Machine integers of the C code, as the numbers below a power of two.
use Prim.Native.Nat.{ℕ, ◌^◌}

-- `unsigned` and `size_t`, and `unsigned long long`.
abbrev pub u32 : ℕ
u32 = 2 ^ 32

abbrev pub u64 : ℕ
u64 = 2 ^ 64
