-- ===== src/Io61/Readc.antt =====
-- `io61_readc` on a regular file: one byte, or the end of the file, and all of it by repeated calls.
use cs61_psets.Common.{
  ℕ, ◌+◌, ◌-◌, ◌≤◌, ◌<◌, ◌≡◌, refl, sym, ◌∙◌, ap, ◌⊎◌, inl, inr, min, none, some, List, arith,
  length, get_or, get_elem?, get_elem?-eq-get_or, Option, suc, zero, [], ◌∷◌,
}
use mathlib.Core.Path.{subst}
use cs61_psets.Io61.{File, slot}
use cs61_psets.Io61.Reading.{readc_from, io61_readc}
use cs61_psets.Io61.Slots.{free_slot, refilled, emptied, fill_inside, fill_end, emptied-IsReader}
use cs61_psets.Io61.Input.{
  At, readc_buffered, readc_refill, readc_eof, readc_first, readc_nothing, readc_refilled,
  emptied-Current,
}

pos_cases : (pos size : ℕ) → pos ≤ size → (pos < size) ⊎ (pos ≡ size)
pos_cases pos size h = omega arith

get_elem?-end : (xs : List ℕ) (p : ℕ) → p ≡ length xs → get_elem? xs p ≡ none
get_elem?-end [] p e = refl
get_elem?-end (x ∷ xs) zero e = absurd (omega arith)
get_elem?-end (x ∷ xs) (suc p) e = get_elem?-end xs p (omega arith)

-- For a regular file that stands at a position inside it, `io61_readc` returns the byte there, and
-- the file then stands at the next position.
pub io61_readc-byte :
    (bytes : List ℕ) (f : File) (p : ℕ)
    → At bytes f p
    → p < length bytes
    → (f' : File) × (io61_readc f ≡ some (some (get_or bytes p 0), f')) × At bytes f' (p + 1)
unfolding io61_readc
io61_readc-byte bytes f p (v, inl (e, z)) before =
    let (f', step, at) : (f' : File) × (readc_from 2 (refilled f 0 (min 4096 (length bytes - 0)))
          ≡ some (some (get_or bytes 0 0), f'))
        × At bytes f' (0 + 1) =
      readc_refilled bytes f 0 v 1 (omega arith) in
    (
      f',
      readc_first 1 f (refilled f 0 (min 4096 (length bytes - 0))) (free_slot f) e
            (fill_inside f bytes v 0 (omega arith)) refl
          ∙ step
          ∙ ap (λ q. some (some (get_or bytes q 0), f')) (sym z),
      subst (λ q. At bytes f' (q + 1)) (sym z) at,
    )
io61_readc-byte bytes f p (v, inr (i, c, e)) before =
    elim (pos_cases (slot f i).pos (slot f i).buff_size c.bounded) [
      | inl left ↦
          let (f', step, at) = readc_buffered bytes f i v c 1 left in
          (
            f',
            step ∙ ap (λ q. some (some (get_or bytes q 0), f')) (sym e),
            subst (λ q. At bytes f' (q + 1)) (sym e) at,
          )
      | inr full ↦
          let (f', step, at) = readc_refilled bytes f p v 0 before in
          (
            f',
            readc_refill bytes f i v c 1 (refilled f p (min 4096 (length bytes - p))) full
                  (rw⁻¹ e (fill_inside f bytes v p before))
                ∙ step,
            at,
          )
    ]

-- For a regular file that stands at its end, `io61_readc` returns EOF, and the file stays there.
pub io61_readc-eof :
    (bytes : List ℕ) (f : File)
    → At bytes f (length bytes)
    → (f' : File) × (io61_readc f ≡ some (none, f')) × At bytes f' (length bytes)
unfolding io61_readc
io61_readc-eof bytes f (v, inl (e, z)) = (
  emptied f 0,
  readc_nothing 1 f (emptied f 0) e (fill_end f bytes v 0 (sym z)),
  (emptied-IsReader f bytes v 0, inl (e, z)),
)
io61_readc-eof bytes f (v, inr (i, c, e)) =
    let full : (slot f i).pos ≡ (slot f i).buff_size = omega (arith, c.size, c.bounded, c.inside) in
    let (c', here) = emptied-Current (length bytes) f i (length bytes) c full in
    (
      emptied f (length bytes),
      readc_eof bytes f i v c 1 (emptied f (length bytes)) full
          (rw⁻¹ e (fill_end f bytes v (length bytes) refl)),
      (emptied-IsReader f bytes v (length bytes), inr (i, c', e ∙ sym here)),
    )

-- For a regular file that stands at a position inside it or at its end, io61_readc returns the byte
-- there, or EOF at the end, and the file then stands at the next position, or at the end still,
-- with its slots still valid.
pub io61_readc-At :
    (bytes : List ℕ) (f : File) (p : ℕ)
    → At bytes f p
    → p ≤ length bytes
    → (f' : File) × (io61_readc f ≡ some (get_elem? bytes p, f'))
      × At bytes f' (min (p + 1) (length bytes))
io61_readc-At bytes f p at h = elim (pos_cases p (length bytes) h) [
  | inl inside ↦
      let (f', e, at') = io61_readc-byte bytes f p at inside in
      (
        f',
        e ∙ ap {A = Option ℕ} (λ o. some (o, f')) (sym (get_elem?-eq-get_or bytes p 0 inside)),
        subst (λ n. At bytes f' n) (omega (arith, inside)) at',
      )
  | inr end ↦
      let (f', e, at') = io61_readc-eof bytes f (subst (λ n. At bytes f n) end at) in
      (
        f',
        e ∙ ap {A = Option ℕ} (λ o. some (o, f')) (sym (get_elem?-end bytes p end)),
        subst (λ n. At bytes f' n) (omega (arith, end)) at',
      )
]
