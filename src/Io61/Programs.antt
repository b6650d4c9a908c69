-- ===== src/Io61/Programs.antt =====
-- pset3/cat61.c and pset3/reverse61.c: two clients that copy a file, one character at a time.
pub mod Cat
pub mod Reverse
mod Tests
use cs61_psets.Common.{
  ℕ, zero, suc, ◌-◌, Bool, true, false, Option, none, some, List, [], ◌∷◌, ◌>>=◌, ◌>>◌, assert,
  if◌then◌else◌,
}
use cs61_psets.Common.Bytes.{u32}
use cs61_psets.Io61.{Descriptor, File}
use cs61_psets.Io61.Writing.{io61_writec, io61_close}
use cs61_psets.Io61.Reading.{io61_readc, io61_seek}

-- The value of type `int` that `io61_readc` returns, as 32 bits: EOF is -1.
abbrev pub int_of : Option ℕ → ℕ
int_of none = u32 - 1
int_of (some ch) = ch

-- The loop of `cat61`.
unfoldable pub cat_loop : (inf_size : ℕ) → (inf outf : File) → Option (File × File)
cat_loop zero inf outf = some (inf, outf)
cat_loop (suc inf_size) inf outf = do
  (ch, inf') ← io61_readc inf
  elim ch [
    | none ↦ some (inf', outf)
    | some byte ↦ (do outf' ← io61_writec outf byte; cat_loop inf_size inf' outf')
  ]

-- `cat61` after its arguments; the descriptors after it.
unfoldable pub cat61 : (inf_size : ℕ) → (inf outf : File) → Option (Descriptor × Descriptor)
unfolding cat_loop
cat61 inf_size inf outf = do
  (inf', outf') ← cat_loop inf_size inf outf
  fd ← io61_close inf'
  fd' ← io61_close outf'
  some (fd, fd')

-- The loop of `reverse61`; `lseek` is what the system call returns for a position.
unfoldable pub reverse_loop : (ℕ → ℕ) → (inf_size : ℕ) → (inf outf : File) → Option (File × File)
reverse_loop lseek zero inf outf = some (inf, outf)
reverse_loop lseek (suc inf_size) inf outf = do
  (ok, inf1) ← io61_seek inf inf_size (lseek inf_size)
  (ch, inf2) ← io61_readc inf1
  outf' ← io61_writec outf (int_of ch)
  reverse_loop lseek inf_size inf2 outf'

-- `reverse61` after its arguments and the file's size; `none` if it exits, too.
unfoldable pub reverse61 :
    (ℕ → ℕ) → (inf_size : ℕ) → (inf outf : File) → Option (Descriptor × Descriptor)
unfolding reverse_loop
reverse61 lseek inf_size inf outf = do
  (ok, inf0) ← io61_seek inf 0 (lseek 0)
  assert ok
  (inf', outf') ← reverse_loop lseek inf_size inf0 outf
  fd ← io61_close inf'
  fd' ← io61_close outf'
  some (fd, fd')
