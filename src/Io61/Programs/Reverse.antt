-- ===== src/Io61/Programs/Reverse.antt =====
-- pset3/reverse61.c: the output is the input backwards.
use cs61_psets.Common.{
  ℕ, zero, suc, ◌%◌, ◌≤◌, ◌<◌, ◌≡◌, refl, sym, ◌∙◌, ap, ◌==◌, true, some, List, [], ◌∷◌, ◌++◌,
  append-nil, append_assoc, arith, length, get_or, take, take-all,
}
use mathlib.Core.List.{reverse, reverse-append}
use cs61_psets.Io61.{Descriptor, File}
use cs61_psets.Io61.Output.{stream, output, IsWriter}
use cs61_psets.Io61.Stream.{writec-output}
use cs61_psets.Io61.Whole.{close-output}
use cs61_psets.Io61.Slots.{IsReader}
use cs61_psets.Io61.Readc.{io61_readc-byte}
use cs61_psets.Io61.Seek.{io61_seek-At}
use cs61_psets.Io61.Programs.{reverse_loop, reverse61}
use cs61_psets.Io61.Programs.Cat.{AllBytes, get_or-AllBytes, close-reader}

-- the first `n` elements, the last one first
abbrev backwards : List ℕ → ℕ → List ℕ
backwards xs zero = []
backwards xs (suc n) = get_or xs n 0 ∷ backwards xs n

take_next :
    (xs : List ℕ) (n : ℕ) → n < length xs → take (suc n) xs ≡ take n xs ++ (get_or xs n 0 ∷ [])
take_next [] n h = absurd (omega arith)
take_next (x ∷ xs) zero h = refl
take_next (x ∷ xs) (suc n) h = ap (λ ys. x ∷ ys) (take_next xs n (omega arith))

backwards-reverse : (xs : List ℕ) (n : ℕ) → n ≤ length xs → backwards xs n ≡ reverse (take n xs)
backwards-reverse xs zero h = refl
backwards-reverse xs (suc n) h =
    ap (λ ys. get_or xs n 0 ∷ ys) (backwards-reverse xs n (omega arith))
    ∙ sym (ap reverse (take_next xs n h) ∙ reverse-append (take n xs) (get_or xs n 0 ∷ []))

reverse_loop-output :
    (lseek : ℕ → ℕ) (bytes : List ℕ) (n : ℕ) (inf outf : File)
    → AllBytes bytes
    → IsReader bytes inf
    → n ≤ length bytes
    → IsWriter outf
    → (inf' outf' : File) × (reverse_loop lseek n inf outf ≡ some (inf', outf'))
      × IsReader bytes inf'
      × IsWriter outf'
      × (output outf' ≡ output outf ++ backwards bytes n)
unfolding reverse_loop
reverse_loop-output lseek bytes zero inf outf small v bound w =
    (inf, outf, refl, v, w, sym (append-nil _))
reverse_loop-output lseek bytes (suc n) inf outf small v bound w =
    let (inf1, sought, at1) = io61_seek-At bytes inf n (lseek n) v (omega arith) in
    let (inf2, read, at2) = io61_readc-byte bytes inf1 n at1 (omega arith) in
    let (outf1, wrote, w1, out1) = writec-output (get_or bytes n 0) w in
    let (inf', outf', rest, v', w', out') =
      reverse_loop-output lseek bytes n inf2 outf1 small at2.0 (omega arith) w1 in
    let byte : get_or bytes n 0 % 256 ≡ get_or bytes n 0 =
      omega (arith, get_or-AllBytes bytes n small) in
    (inf', outf', rw (sought, read, wrote) rest, v', w', out' ∙ rw (out1, byte, append_assoc) refl)

-- `reverse61`, on a regular file that is not empty, terminates with the bytes of the file handed
-- over to the output descriptor, the last one first, behind what was written there before. It
-- seeks to each position, and the first seek is the one that has to succeed.
pub reverse61-output :
    (lseek : ℕ → ℕ) (bytes : List ℕ) (inf outf : File)
    → AllBytes bytes
    → IsReader bytes inf
    → 0 < length bytes
    → lseek 0 ≡ 0
    → IsWriter outf
    → (fd fd' : Descriptor) × (reverse61 lseek (length bytes) inf outf ≡ some (fd, fd'))
      × (stream fd'.calls ≡ output outf ++ reverse bytes)
unfolding reverse61
reverse61-output lseek bytes inf outf small v long start w =
    let (inf0, sought, at0) = io61_seek-At bytes inf 0 (lseek 0) v long in
    let (inf', outf', loop, v', w', out) =
      reverse_loop-output lseek bytes (length bytes) inf0 outf small at0.0 (omega arith) w in
    let (fd', closed, sent) = close-output w' in
    let ok : (lseek 0 == 0) ≡ true = ground (arith, start) in
    (
      inf'.fd,
      fd',
      rw (sought, ok, loop, close-reader bytes inf' v', closed) refl,
      sent
          ∙ out
          ∙ ap (λ ys. output outf ++ ys)
              (backwards-reverse bytes (length bytes) (omega arith)
                ∙ ap reverse (take-all (length bytes) bytes (omega arith))),
    )
