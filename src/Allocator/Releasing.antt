-- ===== src/Allocator/Releasing.antt =====
-- `m61_free` on any pointer: a fault, a message, or the release of a block.
use cs61_psets.Common.Bytes.{u32}
use cs61_psets.Common.{
  List, [], ◌∷◌, ◌++◌, Option, some, none, ℕ, zero, suc, ◌+◌, ◌%◌, ◌≤◌, ◌≡◌, ◌≢◌, refl, arith, inl,
  inr, ◌⊎◌, true, false, Bool-cases, leb, ◌==◌, ◌&&◌, ◌||◌, if◌then◌else◌,
}
use cs61_psets.Allocator.{
  Heap, default_head, default_foot, meta_size, minus, release_block, release_checked, find_meta,
  check_block, follow, m61_free, Message, invalid,
}
use cs61_psets.Allocator.Invariant.{Active, Inv}
use cs61_psets.Allocator.Unlinking.{release_block-Popped, release_block-Inv}

-- the address of the footer
abbrev pub foot_of : Heap → (ptr at : ℕ) → ℕ
foot_of h ptr at = (ptr + (h.metas at).size) % u32

-- What `m61_free` does with the pointer `ptr` behind the place `at` of a header: it faults if there
-- is no memory for the header, or for the footer of an active one; it reports the pointer, or it
-- releases the block.
abbrev pub Released : Heap → (ptr at : ℕ) → List Message × Option Heap → Type 0
Released h ptr at (messages, none) =
    (h.mapped at ≡ false) ⊎ (Active h at × (h.mapped (foot_of h ptr at) ≡ false))
Released h ptr at (messages, some h') =
    Inv h' × (((messages ≢ []) × (h' ≡ h)) ⊎ (Active h at × ((h'.metas at).is_active ≡ false)))

-- what the checks find out
abbrev Checked : Heap → (ptr at : ℕ) → Option (List Message) → Type 0
Checked h ptr at none =
    (h.mapped at ≡ false) ⊎ (Active h at × (h.mapped (foot_of h ptr at) ≡ false))
Checked h ptr at (some []) = Active h at
Checked h ptr at (some (m ∷ rest)) = Unit {0}

-- the search through the list meets only active headers
find_meta-some :
    (fuel : ℕ) (h : Heap) (ptr node : ℕ)
    → Inv h
    → (node ≡ 0) ⊎ Active h node
    → (found : ℕ) × (find_meta fuel h ptr node ≡ some found)
unfolding find_meta
find_meta-some zero h ptr node v on = (0, refl)
find_meta-some (suc fuel) h ptr node v (inl z) = (0, ground (arith, z))
find_meta-some (suc fuel) h ptr node v (inr a) =
    let before : ((h.metas node).prev ≡ 0) ⊎ Active h (h.metas node).prev =
      elim (v.links.before node a) [ inl z ↦ inl z | inr (pa, _) ↦ inr pa ] in
    let (found, is) = find_meta-some fuel h ptr (h.metas node).prev v before in
    let l_bound = (node + meta_size) % u32 in
    let u_bound = (l_bound + (h.metas node).size) % u32 in
    elim (Bool-cases (leb l_bound ptr && leb ptr u_bound)) [
      | inl here ↦ elim (Bool-cases (node == 0)) [
        | inl null ↦ (0, rw null refl)
        | inr some_ ↦ (node, rw (some_, v.readable node a, here) refl)
      ]
      | inr there ↦ elim (Bool-cases (node == 0)) [
        | inl null ↦ (0, rw null refl)
        | inr some_ ↦ (found, rw (some_, v.readable node a, there) is)
      ]
    ]

module _ (fuel : ℕ) (h : Heap) (ptr at : ℕ) (v : Inv h) where
  active-Checked : Active h at → Checked h ptr at (check_block fuel h ptr at)
  unfolding check_block
  active-Checked a = elim (Bool-cases ((h.metas at).header == default_head)) [
    | inr wild ↦ rw (v.readable at a, a, wild) tt
    | inl head ↦ elim (Bool-cases (h.mapped (foot_of h ptr at))) [
      | inr faults ↦ rw (v.readable at a, a, head, faults) (inr (a, faults))
      | inl there ↦ elim (Bool-cases (h.feet (foot_of h ptr at) == default_foot)) [
        | inr wild ↦ rw (v.readable at a, a, head, there, wild) tt
        | inl foot ↦ elim (Bool-cases ((h.metas at).prev == 0)) [
          | inl none_before ↦ rw (v.readable at a, a, head, there, foot, none_before) a
          | inr one_before ↦ elim (v.links.before at a) [
            | inl z ↦ absurd (ground (arith, z, one_before))
            | inr (pa, pn) ↦
                let linked : ((h.metas (h.metas at).prev).next == at) ≡ true = ground (arith, pn) in
                rw
                  (
                    v.readable at a,
                    a,
                    head,
                    there,
                    foot,
                    one_before,
                    v.readable (h.metas at).prev pa,
                    linked,
                  )
                  a
          ]
        ]
      ]
    ]
  ]

  check_block-Checked : Checked h ptr at (check_block fuel h ptr at)
  unfolding check_block
  check_block-Checked = elim (Bool-cases (h.metas at).is_active) [
    | inl a ↦ active-Checked a
    | inr idle ↦ elim (Bool-cases (h.mapped at)) [
      | inr faults ↦ rw faults (inl faults)
      | inl there ↦
          let on : (h.root ≡ 0) ⊎ Active h h.root = elim v.links.root [
            | inl z ↦ inl z
            | inr (ra, _) ↦ inr ra
          ] in
          let (found, is) = find_meta-some fuel h ptr h.root v on in
          elim (Bool-cases (found == 0)) [
            | inl null ↦ rw (there, idle, is, null) tt
            | inr near ↦ rw (there, idle, is, near) tt
          ]
    ]
  ]

-- the header behind an active one is one that can be written
pub release_checked-some :
    (h : Heap) (ptr at : ℕ)
    → Inv h
    → Active h at
    → release_checked h ptr at ≡ some (release_block h ptr at)
unfolding release_checked
release_checked-some h ptr at v a = elim (v.links.behind at a) [
  | inl z ↦ ground (arith, z)
  | inr (na, _) ↦ ground (arith, v.readable (h.metas at).next na)
]

message_there : (first rest : List Message) (m : Message) → first ++ (m ∷ rest) ≢ []
message_there [] rest m = λ e. absurd (ground (arith, e))
message_there (x ∷ first) rest m = λ e. absurd (ground (arith, e))

follow-Released :
    (h : Heap) (ptr at : ℕ) (first : List Message) (o : Option (List Message))
    → Inv h
    → Checked h ptr at o
    → Released h ptr at (follow h ptr at first o)
follow-Released h ptr at first none v c = c
follow-Released h ptr at first (some []) v taken =
    let o = release_block-Popped h ptr at v.links taken in
    rw (release_checked-some h ptr at v taken)
      (release_block-Inv h ptr at v taken, inr (taken, ground (arith, o.active at)))
follow-Released h ptr at first (some (m ∷ rest)) v c = (v, inl (message_there first rest m, refl))

-- On a heap in which the statistics count the active headers, which can be read, and the list of
-- them is linked, and on which there was an allocation, `m61_free` of any pointer, NULL and wild
-- ones included, does one of three things. It faults, and then there is no memory for the header
-- before the pointer, or that header is active and there is none for its footer; or it prints a
-- message and leaves the heap as it is; or the header was active and is not any more, and the heap
-- is in order.
pub m61_free-Released :
    (fuel : ℕ) (h : Heap) (ptr : ℕ)
    → Inv h
    → 1 ≤ h.total_stats.ntotal
    → Released h ptr (minus ptr meta_size) (m61_free fuel h ptr)
unfolding m61_free
m61_free-Released fuel h ptr v some_ =
    let at = minus ptr meta_size in
    let used : (h.total_stats.ntotal == 0) ≡ false = ground (arith, some_) in
    let first : List Message =
      if (h.total_stats.nactive == 0) || (ptr == 0) then invalid ∷ [] else [] in
    rw used (
      follow-Released h ptr at first (check_block fuel h ptr at) v
        (check_block-Checked fuel h ptr at v))
