-- ===== src/Allocator/Resizing.antt =====
-- pset1/m61.c: `m61_realloc` and `m61_calloc`, with the calls of `memcpy` and `memset` that they
-- make.
use cs61_psets.Common.Bytes.{u32}
use cs61_psets.Common.{
  ℕ, ◌+◌, ◌*◌, ◌%◌, ◌≡◌, ◌≢◌, min, ◌⊎◌, true, false, ltb, leb, ◌==◌, ◌||◌, ◌&&◌, not, Option, none,
  some, List, [], ◌∷◌, if◌then◌else◌,
}
use cs61_psets.Allocator.{Heap, Message, meta_size, minus, failed, m61_malloc, m61_free}
use cs61_psets.Allocator.Invariant.{Active, Inv}

pub data Call : Type 0 where
  memcpy_call : (dst src n : ℕ) → Call
  memset_call : (dst value n : ℕ) → Call

-- what a call leaves behind, `none` when it aborts or faults
pub record Outcome : Type 0 where
  pub result : ℕ
  pub heap : Heap
  pub calls : List Call
  pub messages : List Message

abbrev pub maybe_copy : (new_ptr ptr ptr_sz sz : ℕ) → List Call
maybe_copy new_ptr ptr ptr_sz sz =
    if (ptr == 0) || (new_ptr == 0)
    then []
    else memcpy_call new_ptr ptr (if ltb ptr_sz sz then ptr_sz else sz) ∷ []

-- the end of `m61_realloc`, after `m61_free`
abbrev finish : (new_ptr : ℕ) (calls : List Call) → List Message × Option Heap → Option Outcome
finish new_ptr calls (messages, none) = none
finish new_ptr calls (messages, some h) =
    some (record { result = new_ptr; heap = h; calls = calls; messages = messages })

-- `m61_realloc` after the allocation; it reads the old header before it copies.
unfoldable pub replace_block : (fuel : ℕ) → Heap → (ptr new_ptr sz : ℕ) → Option Outcome
unfolding m61_free finish
replace_block fuel h ptr new_ptr sz =
    let at = minus ptr meta_size in
    let calls = maybe_copy new_ptr ptr (h.metas at).size sz in
    if not (ptr == 0) && not (new_ptr == 0) && not (h.mapped at)
    then none
    else finish new_ptr calls (if ptr == 0 then ([], some h) else m61_free fuel h ptr)

unfoldable pub m61_realloc : (fuel fresh index : ℕ) → Heap → (ptr sz file line : ℕ) → Option Outcome
unfolding m61_malloc replace_block
m61_realloc fuel fresh index h ptr sz file line =
    let (new_ptr, h1) = m61_malloc fresh index h sz file line in
    if sz == 0 then replace_block fuel h ptr 0 sz else replace_block fuel h1 ptr new_ptr sz

unfoldable pub m61_calloc : (fresh index : ℕ) → Heap → (nmemb sz file line : ℕ) → Outcome
unfolding m61_malloc
m61_calloc fresh index h nmemb sz file line =
    let product = (nmemb * sz) % u32 in
    let (ptr, h1) =
      if leb nmemb product then m61_malloc fresh index h product file line else (0, h) in
    if ptr == 0
    then record { result = 0; heap = failed h1 product; calls = []; messages = [] }
    else record { result = ptr; heap = h1; calls = memset_call ptr 0 product ∷ []; messages = [] }

-- an active block of `old` bytes with its footer
abbrev pub Block : Heap → (ptr old : ℕ) → Type 0
Block h ptr old =
    Active h (minus ptr meta_size)
    × ((h.metas (minus ptr meta_size)).size ≡ old)
    × (h.mapped ((ptr + old) % u32) ≡ true)

-- the calls: the old contents, cut to the new size, go from the old block to the new one, if there
-- are both
abbrev pub Copied : (old ptr new_ptr sz : ℕ) → List Call → Type 0
Copied old ptr new_ptr sz calls =
    (((ptr ≡ 0) ⊎ (new_ptr ≡ 0)) × (calls ≡ []))
    ⊎ ((ptr ≢ 0) × (new_ptr ≢ 0) × (calls ≡ memcpy_call new_ptr ptr (min old sz) ∷ []))

-- the old block is free, or there is none, or m61_free has complained about it
abbrev pub Freed : (ptr : ℕ) → Heap → List Message → Type 0
Freed ptr h messages =
    ((ptr ≡ 0) × (messages ≡ []))
    ⊎ ((messages ≢ []) ⊎ ((h.metas (minus ptr meta_size)).is_active ≡ false))

-- what is left in the end
abbrev pub Replaced : (old ptr sz : ℕ) → Option Outcome → Type 0
Replaced old ptr sz none = ⊥
Replaced old ptr sz (some x) =
    Inv x.heap × Copied old ptr x.result sz x.calls × Freed ptr x.heap x.messages
