-- ===== src/Io61/Programs/Cat.antt =====
-- pset3/cat61.c: the output is the input.
use cs61_psets.Common.{
  ℕ, zero, suc, ◌%◌, ◌≤◌, ◌<◌, ◌≡◌, refl, sym, ◌∙◌, ap, ◌⊎◌, inl, inr, some, List, [], ◌∷◌, ◌++◌,
  append-nil, append_assoc, arith, length, get_or, take, drop,
}
use mathlib.Core.Path.{subst}
use cs61_psets.Io61.{Descriptor, File}
use cs61_psets.Io61.Writing.{io61_close, io61_flush}
use cs61_psets.Io61.Output.{stream, output, IsWriter}
use cs61_psets.Io61.Stream.{writec-output}
use cs61_psets.Io61.Whole.{close-output}
use cs61_psets.Io61.Slots.{IsReader}
use cs61_psets.Io61.Input.{At}
use cs61_psets.Io61.Readc.{io61_readc-byte, io61_readc-eof}
use cs61_psets.Io61.Programs.{cat_loop, cat61}

-- every element is a byte
abbrev pub AllBytes : List ℕ → Type 0
AllBytes [] = Unit
AllBytes (x ∷ xs) = (x < 256) × AllBytes xs

pub get_or-AllBytes : (xs : List ℕ) (i : ℕ) → AllBytes xs → get_or xs i 0 < 256
get_or-AllBytes [] i h = omega arith
get_or-AllBytes (x ∷ xs) zero h = h.0
get_or-AllBytes (x ∷ xs) (suc i) h = get_or-AllBytes xs i h.1

pub drop_first : (xs : List ℕ) (p : ℕ) → p < length xs → drop p xs ≡ get_or xs p 0 ∷ drop (suc p) xs
drop_first [] p h = absurd (omega arith)
drop_first (x ∷ xs) zero h = refl
drop_first (x ∷ xs) (suc p) h = drop_first xs p (omega arith)

drop_end : (xs : List ℕ) → drop (length xs) xs ≡ []
drop_end [] = refl
drop_end (x ∷ xs) = drop_end xs

position_cases : (p n : ℕ) → p ≤ n → (p < n) ⊎ (p ≡ n)
position_cases p n h = omega arith

-- The loop copies the bytes from the position on, as many as it is asked for.
pub cat_loop-output :
    (bytes : List ℕ) (n : ℕ) (inf outf : File) (p : ℕ)
    → AllBytes bytes
    → At bytes inf p
    → p ≤ length bytes
    → IsWriter outf
    → (inf' outf' : File) × (cat_loop n inf outf ≡ some (inf', outf'))
      × IsReader bytes inf'
      × IsWriter outf'
      × (output outf' ≡ output outf ++ take n (drop p bytes))
unfolding cat_loop
cat_loop-output bytes zero inf outf p small at bound w =
    (inf, outf, refl, at.0, w, sym (append-nil _))
cat_loop-output bytes (suc n) inf outf p small at bound w =
    elim (position_cases p (length bytes) bound) [
      | inl inside ↦
          let (inf1, read, at1) = io61_readc-byte bytes inf p at inside in
          let (outf1, wrote, w1, out1) = writec-output (get_or bytes p 0) w in
          let (inf', outf', rest, v', w', out') =
            cat_loop-output bytes n inf1 outf1 (suc p) small
              (subst (λ q. At bytes inf1 q) (omega arith) at1) (omega arith) w1 in
          let byte : get_or bytes p 0 % 256 ≡ get_or bytes p 0 =
            omega (arith, get_or-AllBytes bytes p small) in
          (
            inf',
            outf',
            rw (read, wrote) rest,
            v',
            w',
            out' ∙ rw (out1, byte, append_assoc, drop_first bytes p inside) refl,
          )
      | inr end ↦
          let (inf1, read, at1) = io61_readc-eof bytes inf (subst (λ q. At bytes inf q) end at) in
          (inf1, outf, rw read refl, at1.0, w, rw (end, drop_end bytes, append-nil) refl)
    ]

pub close-reader : (bytes : List ℕ) (f : File) → IsReader bytes f → io61_close f ≡ some f.fd
unfolding io61_close io61_flush
close-reader bytes f v = ground (arith, v.reading)

-- `cat61`, on a regular file and with an output file that nothing was written to, terminates with
-- the first `inf_size` bytes of the file, or all of them, handed over to the output descriptor.
pub cat61-output :
    (bytes : List ℕ) (inf_size : ℕ) (inf outf : File)
    → AllBytes bytes
    → At bytes inf 0
    → IsWriter outf
    → output outf ≡ []
    → (fd fd' : Descriptor) × (cat61 inf_size inf outf ≡ some (fd, fd'))
      × (stream fd'.calls ≡ take inf_size bytes)
unfolding cat61
cat61-output bytes inf_size inf outf small at w fresh =
    let (inf', outf', loop, v', w', out) =
      cat_loop-output bytes inf_size inf outf 0 small at (omega arith) w in
    let (fd', closed, sent) = close-output w' in
    (
      inf'.fd,
      fd',
      rw (loop, close-reader bytes inf' v', closed) refl,
      sent ∙ out ∙ ap (λ front. front ++ take inf_size bytes) fresh,
    )
