-- ===== src/Kernel/Pages.antt =====
-- pset6/kernel.c: the array `pageinfo` of physical pages.
pub mod Alloc
mod Tests
use cs61_psets.Common.{
  ℕ, zero, suc, ◌+◌, ◌-◌, ◌*◌, ◌/◌, ◌%◌, ◌^◌, Bool, true, false, Option, none, some, List, [], ◌∷◌,
  ltb, leb, ◌==◌, ◌&&◌, ◌||◌, not, if◌then◌else◌, get_or, set, take, length,
}
use cs61_psets.Kernel.Paging.{Memory, virtual_memory_lookup, memsize_physical}

-- PO_FREE, PO_RESERVED and PO_KERNEL as the 8 bits of an `int8_t`; other owners are processes.
abbrev pub po_free : ℕ
po_free = 0

abbrev pub po_reserved : ℕ
po_reserved = 255

abbrev pub po_kernel : ℕ
po_kernel = 254

-- `> n` on an `int8_t`, for n ≥ 0
abbrev pub above : (n x : ℕ) → Bool
above n x = ltb n x && ltb x 128

-- `physical_pageinfo`, both fields of 8 bits
pub record Page : Type 0 where
  pub owner : ℕ
  pub refcount : ℕ

abbrev pub no_page : Page
no_page = record { owner = 0; refcount = 0 }

-- PROC_START_ADDR / PAGESIZE
abbrev pub proc_start_page : ℕ
proc_start_page = 256

-- The loops of `find_free_page` and `find_free_page_table`, at page `i`.
unfoldable pub scan_pages : List Page → (i : ℕ) → Option ℕ
scan_pages [] i = none
scan_pages (page ∷ pages) i =
    let rest = scan_pages pages (i + 1) in if page.owner == po_free then some (i * 4096) else rest

-- An address, with -1 as 32 bits.
abbrev pub address : Option ℕ → ℕ
address none = 4294967295
address (some a) = a

unfoldable pub find_free_page : List Page → ℕ
unfolding scan_pages
find_free_page pageinfo = address (scan_pages pageinfo 0)

unfoldable pub find_free_page_table : List Page → ℕ
unfolding scan_pages
find_free_page_table pageinfo = address (scan_pages (take proc_start_page pageinfo) 0)

-- `none` stands for -1.
unfoldable pub physical_page_alloc : List Page → (addr owner : ℕ) → Option (List Page)
physical_page_alloc pageinfo addr owner =
    if not (addr % 4096 == 0)
      || leb memsize_physical addr
      || not ((get_or pageinfo (addr / 4096) no_page).refcount == 0)
    then none
    else some (set pageinfo (addr / 4096) (record { owner = owner % 256; refcount = 1 }))

-- `physical_memory_isreserved`
unfoldable pub physical_memory_isreserved : ℕ → Bool
physical_memory_isreserved pa = (pa == 0) || (leb 655360 pa && ltb pa 1048576)

-- The owner in `pageinfo_init`. `end_` is the end of the kernel, a symbol of the linker.
unfoldable pub initial_owner : (end_ addr : ℕ) → ℕ
unfolding physical_memory_isreserved
initial_owner end_ addr =
    if physical_memory_isreserved addr
    then po_reserved
    else if (leb 262144 addr && ltb addr end_) || (addr == 520192)
    then po_kernel
    else po_free

-- The loop of `pageinfo_init` over the pages from `i` on.
unfoldable pub init_pages : (end_ i pages : ℕ) → List Page
unfolding initial_owner
init_pages end_ i zero = []
init_pages end_ i (suc pages) =
    record {
      owner = initial_owner end_ (i * 4096);
      refcount = if initial_owner end_ (i * 4096) == po_free then 0 else 1;
    }
    ∷ init_pages end_ (i + 1) pages

unfoldable pub pageinfo_init : (end_ : ℕ) → List Page
unfolding init_pages
pageinfo_init end_ = init_pages end_ 0 512

-- What `sys_exit` does with one page.
unfoldable pub release : (pid : ℕ) → Page → Page
release pid page =
    let freed = if page.owner == pid then no_page else page in
    if above 1 freed.refcount && above 0 freed.owner
    then record freed { refcount = freed.refcount - 1 }
    else freed

-- The loop of `sys_exit` at virtual page `i`. `none` is an index outside of `pageinfo`.
unfoldable pub release_pages :
    Memory → (kernel_pagetable pid i pages : ℕ) → List Page → Option (List Page)
unfolding release
release_pages mem kernel_pagetable pid i zero pageinfo = some pageinfo
release_pages mem kernel_pagetable pid i (suc pages) pageinfo =
    elim (virtual_memory_lookup mem kernel_pagetable (i * 4096)) [
      | none ↦ none
      | some vmap ↦
          if ltb vmap.pn (length pageinfo)
          then release_pages mem kernel_pagetable pid (i + 1) pages
              (set pageinfo vmap.pn (release pid (get_or pageinfo vmap.pn no_page)))
          else none
    ]
