-- ===== src/Memory.antt =====
-- pset6/lib.c: memcpy, memmove, memset, strlen, strnlen, strcpy, strcmp, strchr, rand and srand.
-- Memory is a function from addresses to bytes, and the blocks do not reach the end of the address
-- space. A string has no length of its own, so the loops over strings run on fuel.
pub mod Move
pub mod Strings
mod Tests
use cs61_psets.Common.{
  ℕ, zero, suc, ◌+◌, ◌-◌, ◌*◌, ◌%◌, ◌^◌, Bool, true, false, Option, none, some, ltb, ◌==◌, ◌&&◌,
  if◌then◌else◌, ◌>>=◌,
}
use cs61_psets.Common.Bytes.{u32}
use Prim.Native.Nat.{compare, Ordering}

-- `*addr = byte`
abbrev pub poke : (ℕ → ℕ) → (addr byte : ℕ) → ℕ → ℕ
poke mem addr byte = λ a. if a == addr then byte else mem a

unfoldable pub memcpy : (mem : ℕ → ℕ) (dst src n : ℕ) → ℕ → ℕ
memcpy mem d s zero = mem
memcpy mem d s (suc n) = memcpy (poke mem d (mem s)) (d + 1) (s + 1) n

-- The loop of `memmove` that starts at the ends of the two blocks.
unfoldable pub move_back : (mem : ℕ → ℕ) (dst src n : ℕ) → ℕ → ℕ
move_back mem d s zero = mem
move_back mem d s (suc n) = move_back (poke mem (d + n) (mem (s + n))) d s n

-- Its other loop does what the loop of `memcpy` does.
unfoldable pub memmove : (mem : ℕ → ℕ) (dst src n : ℕ) → ℕ → ℕ
unfolding move_back memcpy
memmove mem d s n = if ltb s d && ltb d (s + n) then move_back mem d s n else memcpy mem d s n

unfoldable pub memset : (mem : ℕ → ℕ) (v c n : ℕ) → ℕ → ℕ
memset mem p c zero = mem
memset mem p c (suc n) = memset (poke mem p (c % 256)) (p + 1) c n

unfoldable pub strlen : ℕ → (ℕ → ℕ) → (s : ℕ) → Option ℕ
strlen zero mem s = none
strlen (suc fuel) mem s =
    let rest = (do n ← strlen fuel mem (s + 1); some (n + 1)) in if mem s == 0 then some 0 else rest

unfoldable pub strnlen : (ℕ → ℕ) → (s maxlen : ℕ) → ℕ
strnlen mem s zero = 0
strnlen mem s (suc maxlen) =
    let rest = strnlen mem (s + 1) maxlen in if mem s == 0 then 0 else rest + 1

unfoldable pub strcpy : ℕ → (mem : ℕ → ℕ) (dst src : ℕ) → Option (ℕ → ℕ)
strcpy zero mem d s = none
strcpy (suc fuel) mem d s =
    let rest = strcpy fuel (poke mem d (mem s)) (d + 1) (s + 1) in
    if mem s == 0 then some (poke mem d (mem s)) else rest

-- -1, 0 and 1 are `lt`, `eq` and `gt`.
unfoldable pub strcmp : ℕ → (mem : ℕ → ℕ) (a b : ℕ) → Option Ordering
strcmp zero mem a b = none
strcmp (suc fuel) mem a b =
    let rest = strcmp fuel mem (a + 1) (b + 1) in
    if ltb 0 (mem a) && ltb 0 (mem b) && (mem a == mem b)
    then rest
    else some (compare (mem a) (mem b))

-- The inner `none` is NULL.
unfoldable pub strchr : ℕ → (mem : ℕ → ℕ) (s c : ℕ) → Option (Option ℕ)
strchr zero mem s c = none
strchr (suc fuel) mem s c =
    let rest = strchr fuel mem (s + 1) c in
    if mem s == c % 256 then some (some s) else if mem s == 0 then some none else rest

-- `rand_seed`, and `none` if `rand_seed_set` is 0
unfoldable pub srand : ℕ → Option ℕ
srand seed = some (seed % u32)

-- The number that `rand` returns, and the seed after it. RAND_MAX in lib.h is 0x7FFFFFFF.
unfoldable pub rand : Option ℕ → ℕ × Option ℕ
rand seed =
    let next =
      (elim seed as (λ _. ℕ) [ none ↦ 819234718 | some seed ↦ seed ] * 1664525 + 1013904223)
      % u32 in
    (next % 2 ^ 31, some next)
