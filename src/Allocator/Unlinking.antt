-- ===== src/Allocator/Unlinking.antt =====
-- A header leaves the list when `m61_free` releases its block, and the heap stays in order.
use cs61_psets.Common.{
  ℕ, ◌≡◌, refl, sym, ◌∙◌, ap, arith, inl, inr, Bool, true, false, Bool-cases, ◌==◌, ◌&&◌, not,
  if◌then◌else◌, put,
}
use cs61_psets.Allocator.{
  Heap, Meta, Statistics, settle, unlink, link_back, link_forth, release_block,
}
use cs61_psets.Allocator.Invariant.{Active, Links, Inv}
use cs61_psets.Allocator.Freeing.{Popped, root_end, was-Active, pop-Links, pop-count, pop-bytes}

module _ (f : ℕ → Meta) (at : ℕ) where
  back-fields :
      (b : ℕ)
      → ((link_back f at b).is_active ≡ (f b).is_active)
        × ((link_back f at b).size ≡ (f b).size)
        × ((link_back f at b).next ≡ (f b).next)
  unfolding link_back
  back-fields b = (ground arith, ground arith, ground arith)

  back-prev :
      (b : ℕ)
      → (link_back f at b).prev
        ≡ (if (b == (f at).next) && not ((f at).next == 0) then (f at).prev else (f b).prev)
  unfolding link_back
  back-prev b = ground arith

  forth-fields :
      (b : ℕ)
      → ((link_forth f at b).is_active ≡ (f b).is_active)
        × ((link_forth f at b).size ≡ (f b).size)
        × ((link_forth f at b).prev ≡ (f b).prev)
  unfolding link_forth
  forth-fields b = (ground arith, ground arith, ground arith)

  forth-next :
      (b : ℕ)
      → (link_forth f at b).next
        ≡ (if (b == (f at).prev) && not ((f at).prev == 0) then (f at).next else (f b).next)
  unfolding link_forth
  forth-next b = ground arith

unlink-middle :
    (h : Heap) (at : ℕ)
    → (h.root == at) ≡ false
    → (unlink h at ≡ record h { metas = link_forth (link_back h.metas at) at })
unfolding unlink
unlink-middle h at e = rw e refl

unlink-root :
    (h : Heap) (at : ℕ)
    → (h.root == at) ≡ true
    → (h.metas at).next ≡ 0
    → (unlink h at ≡ record h { root = (h.metas at).prev; metas = link_forth h.metas at })
unfolding unlink link_forth
unlink-root h at e z = elim (Bool-cases ((h.metas at).prev == 0)) [
  | inl null ↦
      let p : (h.metas at).prev ≡ 0 = ground (arith, null) in
      rw (e, null) (λ j. record h { root = sym p j })
  | inr some_ ↦
      rw (e, some_)
        (λ j. record h {
          root = (h.metas at).prev;
          metas =
              put h.metas (h.metas at).prev (record (h.metas (h.metas at).prev) { next = sym z j });
        })
]

-- a header `at` is marked as inactive
record Marked (h : Heap) (f : ℕ → Meta) (at : ℕ) : Type 0 where
  active : (b : ℕ) → (f b).is_active ≡ (if b == at then false else (h.metas b).is_active)
  size : (b : ℕ) → (f b).size ≡ (h.metas b).size
  prev : (b : ℕ) → (f b).prev ≡ (h.metas b).prev
  next : (b : ℕ) → (f b).next ≡ (h.metas b).next

module _ (h h' : Heap) (f : ℕ → Meta) (at : ℕ) (l : Links h) (taken : Active h at)
    (k : Marked h f at) where
  root-Popped :
      (h.root == at) ≡ true
      → h'.root ≡ (h.metas at).prev
      → h'.metas ≡ link_forth f at
      → Popped h h' at
  root-Popped e r m =
      let z = root_end h at l taken (ground (arith, e)) in
      let at_b : (b : ℕ) → h'.metas b ≡ link_forth f at b = λ b. ap {A = ℕ → Meta} (λ g. g b) m in
      record {
        active = λ b. ap (λ x. x.is_active) (at_b b) ∙ (forth-fields f at b).0 ∙ k.active b;
        size = λ b. ap (λ x. x.size) (at_b b) ∙ (forth-fields f at b).1 ∙ k.size b;
        prev =
            λ b. ap (λ x. x.prev) (at_b b) ∙ (forth-fields f at b).2 ∙ k.prev b ∙ ground (arith, z);
        next = λ b.
            ap (λ x. x.next) (at_b b)
            ∙ forth-next f at b
            ∙ rw (k.next at, k.prev at, k.next b) refl;
        root = r ∙ rw e refl;
      }

  middle-Popped :
      (h.root == at) ≡ false
      → h'.root ≡ h.root
      → h'.metas ≡ link_forth (link_back f at) at
      → Popped h h' at
  middle-Popped e r m =
      let g = link_back f at in
      let at_b : (b : ℕ) → h'.metas b ≡ link_forth g at b = λ b. ap {A = ℕ → Meta} (λ g. g b) m in
      let p : (g at).prev ≡ (h.metas at).prev = ground (arith, back-prev f at at, k.prev at) in
      record {
        active = λ b.
            ap (λ x. x.is_active) (at_b b)
            ∙ (forth-fields g at b).0
            ∙ (back-fields f at b).0
            ∙ k.active b;
        size = λ b.
            ap (λ x. x.size) (at_b b) ∙ (forth-fields g at b).1 ∙ (back-fields f at b).1 ∙ k.size b;
        prev = λ b.
            ap (λ x. x.prev) (at_b b)
            ∙ (forth-fields g at b).2
            ∙ back-prev f at b
            ∙ rw (k.next at, k.prev at, k.prev b) refl;
        next = λ b.
            ap (λ x. x.next) (at_b b)
            ∙ forth-next g at b
            ∙ rw (p, (back-fields f at at).2, (back-fields f at b).2, k.next at, k.next b) refl;
        root = r ∙ rw e refl;
      }

pub release_block-Popped :
    (h : Heap) (ptr at : ℕ) → Links h → Active h at → Popped h (release_block h ptr at) at
unfolding release_block
release_block-Popped h ptr at l taken =
    let f : ℕ → Meta = put h.metas at (record (h.metas at) { is_active = false }) in
    let k : Marked h f at = record {
      active = λ b. ground arith;
      size = λ b. ground arith;
      prev = λ b. ground arith;
      next = λ b. ground arith;
    } in
    elim (Bool-cases (h.root == at)) [
      | inl e ↦
          let z : ((settle h ptr at).metas at).next ≡ 0 =
            k.next at ∙ root_end h at l taken (ground (arith, e)) in
          let same = unlink-root (settle h ptr at) at e z in
          root-Popped h (release_block h ptr at) f at l taken k e
            (ap {A = Heap} (λ g. g.root) same ∙ k.prev at) (ap {A = Heap} (λ g. g.metas) same)
      | inr e ↦
          let same = unlink-middle (settle h ptr at) at e in
          middle-Popped h (release_block h ptr at) f at l taken k e
            (ap {A = Heap} (λ g. g.root) same) (ap {A = Heap} (λ g. g.metas) same)
    ]

pub unlink-stats : (h : Heap) (at : ℕ) → (unlink h at).total_stats ≡ h.total_stats
unfolding unlink
unlink-stats h at = elim (Bool-cases (h.root == at)) [
  | inr e ↦ rw e refl
  | inl e ↦ elim (Bool-cases ((h.metas at).prev == 0)) [
    | inl null ↦ rw (e, null) refl
    | inr some_ ↦ rw (e, some_) refl
  ]
]

unlink-mapped : (h : Heap) (at : ℕ) → (unlink h at).mapped ≡ h.mapped
unfolding unlink
unlink-mapped h at = elim (Bool-cases (h.root == at)) [
  | inr e ↦ rw e refl
  | inl e ↦ elim (Bool-cases ((h.metas at).prev == 0)) [
    | inl null ↦ rw (e, null) refl
    | inr some_ ↦ rw (e, some_) refl
  ]
]

pub release_block-Inv : (h : Heap) (ptr at : ℕ) → Inv h → Active h at → Inv (release_block h ptr at)
unfolding release_block
release_block-Inv h ptr at v taken =
    let h' : Heap = unlink (settle h ptr at) at in
    let o : Popped h h' at = release_block-Popped h ptr at v.links taken in
    let stats = unlink-stats (settle h ptr at) at in
    record {
      links = pop-Links h h' at v.links taken o;
      readable = λ b a.
          let (_, a') = was-Active h h' at v.links taken o b a in
          ap {A = ℕ → Bool} (λ f. f b) (unlink-mapped (settle h ptr at) at) ∙ v.readable b a';
      small = λ b a.
          let (ne, a') = was-Active h h' at v.links taken o b a in rw (o.size b) (v.small b a');
      count =
          ap {A = Statistics} (λ t. t.nactive) stats
          ∙ omega (arith, v.count, pop-count h h' at v.links taken o);
      bytes =
          ap {A = Statistics} (λ t. t.active_size) stats
          ∙ omega (arith, v.bytes, pop-bytes h h' at v.links taken o, v.small at taken);
    }
