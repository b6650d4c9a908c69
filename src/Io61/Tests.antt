-- ===== src/Io61/Tests.antt =====
-- The theorems on pset3/io61.c at concrete files.
use cs61_psets.Common.{
  ℕ, zero, suc, ◌≡◌, refl, inl, none, some, List, [], ◌∷◌, ◌++◌, arith, length, min, ◌+◌, get_elem?,
  replicate, length-replicate, ◌==◌,
}
use cs61_psets.Io61.{Slot, rdonly, wronly, Descriptor, File, blank, io61_fdopen}
use cs61_psets.Io61.Writing.{io61_write, io61_close}
use cs61_psets.Io61.Reading.{io61_readc, io61_seek}
use cs61_psets.Io61.Slots.{IsReader, AllHold}
use cs61_psets.Io61.Output.{stream, output, IsWriter, Idle}
use cs61_psets.Io61.Whole.{write-output, close-output}
use cs61_psets.Io61.Input.{At}
use cs61_psets.Io61.Readc.{io61_readc-At}
use cs61_psets.Io61.Seek.{io61_seek-At}

-- a slot of a file that nothing was done to yet, in a block of zeros
abbrev pub clear : Slot
clear = record blank { arr_buf = replicate 4096 0 }

-- an output file
abbrev pub outfile : File
outfile = record {
  fd = record { calls = []; incoming = [] };
  mode = wronly;
  file_data = [];
  cache = clear ∷ replicate 11 clear;
  filesize = none;
  curr_cache = none;
  cache_count = 0;
}

clear-Idle : (k : ℕ) → Idle (replicate k clear)
clear-Idle zero = tt
clear-Idle (suc k) = (refl, clear-Idle k)

blank-AllHold : (n k : ℕ) → AllHold n (replicate k blank)
blank-AllHold n zero = tt
blank-AllHold n (suc k) = ((λ h. cc h), blank-AllHold n k)

pub outfile-IsWriter : IsWriter outfile
outfile-IsWriter = record {
  first = clear;
  others = replicate 11 clear;
  shape = refl;
  writing = refl;
  idle = clear-Idle 11;
  room = length-replicate {A = ℕ} 4096 0;
  current = inl (refl, refl);
}

-- a regular file of five bytes
abbrev pub hello : List ℕ
hello = 104 ∷ 101 ∷ 108 ∷ 108 ∷ 111 ∷ []

abbrev pub infile : File
infile = record {
  fd = record { calls = []; incoming = [] };
  mode = rdonly;
  file_data = hello;
  cache = replicate 12 blank;
  filesize = some 5;
  curr_cache = none;
  cache_count = 0;
}

pub infile-IsReader : IsReader hello infile
infile-IsReader = record {
  reading = refl;
  regular = refl;
  mapped = refl;
  small = omega arith;
  slots = refl;
  valid = blank-AllHold 5 12;
}

fdopen-infile :
    io61_fdopen (record { calls = []; incoming = [] }) rdonly (some 5) hello (replicate 12 blank)
    ≡ some infile
unfolding io61_fdopen
fdopen-infile = refl

write-output_example :
    (f' : File) × (io61_write outfile hello ≡ some (length hello, f'))
    × IsWriter f'
    × (output f' ≡ output outfile ++ hello)
write-output_example = write-output hello outfile-IsWriter (omega arith)

close-output_example :
    (fd : Descriptor) × (io61_close outfile ≡ some fd) × (stream fd.calls ≡ output outfile)
close-output_example = close-output outfile-IsWriter

io61_readc-At_example :
    (f' : File) × (io61_readc infile ≡ some (get_elem? hello 0, f'))
    × At hello f' (min (0 + 1) (length hello))
io61_readc-At_example =
    io61_readc-At hello infile 0 (infile-IsReader, inl (refl, refl)) (omega arith)

io61_seek-At_example : (f' : File) × (io61_seek infile 3 3 ≡ some (3 == 3, f')) × At hello f' 3
io61_seek-At_example = io61_seek-At hello infile 3 3 infile-IsReader (omega arith)
