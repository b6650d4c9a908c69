-- ===== src/Io61/Programs/Tests.antt =====
-- The theorems on pset3/cat61.c and pset3/reverse61.c at concrete files.
use cs61_psets.Common.{◌≡◌, refl, inl, some, ◌++◌, arith, take}
use mathlib.Core.List.{reverse}
use cs61_psets.Io61.{Descriptor}
use cs61_psets.Io61.Output.{stream, output}
use cs61_psets.Io61.Tests.{outfile, outfile-IsWriter, hello, infile, infile-IsReader}
use cs61_psets.Io61.Programs.{cat61, reverse61}
use cs61_psets.Io61.Programs.Cat.{AllBytes, cat61-output}
use cs61_psets.Io61.Programs.Reverse.{reverse61-output}

hello-AllBytes : AllBytes hello
hello-AllBytes = (omega arith, (omega arith, (omega arith, (omega arith, (omega arith, tt)))))

cat61-output_example :
    (fd fd' : Descriptor) × (cat61 3 infile outfile ≡ some (fd, fd'))
    × (stream fd'.calls ≡ take 3 hello)
cat61-output_example =
    cat61-output hello 3 infile outfile hello-AllBytes (infile-IsReader, inl (refl, refl))
      outfile-IsWriter refl

reverse61-output_example :
    (fd fd' : Descriptor) × (reverse61 (λ pos. pos) 5 infile outfile ≡ some (fd, fd'))
    × (stream fd'.calls ≡ output outfile ++ reverse hello)
reverse61-output_example =
    reverse61-output (λ pos. pos) hello infile outfile hello-AllBytes infile-IsReader (omega arith)
      refl outfile-IsWriter
