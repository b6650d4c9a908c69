-- ===== src/Memory/Tests.antt =====
-- The theorems on pset6/lib.c at concrete memories.
use cs61_psets.Common.{ℕ, ◌≡◌, refl, ◌↔◌, arith, some, List, [], ◌∷◌}
use Prim.Native.Nat.{Ordering}
use cs61_psets.Memory.{poke, memmove, strcmp}
use cs61_psets.Memory.Move.{Copied, memmove-Copied}
use cs61_psets.Memory.Strings.{StringAt, order, strcmp_correct}

abbrev text_hi : List ℕ
text_hi = 104 ∷ 105 ∷ []

abbrev text_ho : List ℕ
text_ho = 104 ∷ 111 ∷ []

-- "hi" at 100 and "ho" at 200
abbrev words : ℕ → ℕ
words = poke (poke (poke (poke (λ a. 0) 100 104) 101 105) 200 104) 201 111

hi : StringAt words 100 text_hi
hi = (refl, omega arith, (refl, omega arith, refl))

ho : StringAt words 200 text_ho
ho = (refl, omega arith, (refl, omega arith, refl))

-- two bytes, moved up by one over themselves
memmove-Copied_example : Copied words (memmove words 101 100 2) 101 100 2
memmove-Copied_example = memmove-Copied words 101 100 2

strcmp_correct_example :
    (strcmp 3 words 100 200 ≡ some (order text_hi text_ho))
    × ((order text_hi text_ho ≡ Ordering.eq) ↔ (text_hi ≡ text_ho))
strcmp_correct_example = strcmp_correct 3 words 100 200 text_hi text_ho hi ho (omega arith)
