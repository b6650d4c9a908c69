-- ===== src/Dispatch/Queue/Order.antt =====
-- A valid queue holds a sequence of payloads; the operations are those of a bounded FIFO.
use cs61_psets.Common.{
  ℕ, zero, suc, ◌+◌, ◌-◌, ◌%◌, ◌≤◌, ◌<◌, ◌≡◌, refl, ◌∙◌, true, none, some, List, [], ◌∷◌, ◌++◌,
  arith, get_or, set, length, length-set, get_or-set_self, get_or-set_ne, ◌↔◌, ap,
}
use cs61_psets.Common.Bytes.{u32}
use mathlib.Core.Path.{ap₂}
use cs61_psets.Dispatch.Queue.{Queue, queue_init, size, push_back, pop_front, empty}

-- how many payloads lie between `head` and `tail`
abbrev pub count : Queue → ℕ
count q = (q.tail + 16 - q.head) % 16

pub record IsValid (q : Queue) : Type 0 where
  pub head_in : q.head < 16
  pub tail_in : q.tail < 16
  pub slots : length q.array ≡ 16
  pub bounded : count q ≤ 5

-- the `n` payloads from slot `h` on, going round at 16
abbrev pub window : List ℕ → ℕ → ℕ → List ℕ
window a h zero = []
window a h (suc n) = get_or a h 0 ∷ window a ((h + 1) % 16) n

abbrev pub contents : Queue → List ℕ
contents q = window q.array q.head (count q)

pub length-window : (a : List ℕ) (h n : ℕ) → length (window a h n) ≡ n
length-window a h zero = refl
length-window a h (suc n) = ap suc (length-window a ((h + 1) % 16) n)

window-set :
    (a : List ℕ) (x n h i : ℕ)
    → length a ≡ 16
    → h < 16
    → n < 15
    → i ≡ (h + n) % 16
    → window (set a i x) h (suc n) ≡ window a h n ++ (x ∷ [])
window-set a x zero h i hs hh hn e =
    let e' : i ≡ h = omega arith in rw (e', get_or-set_self a h x 0 (omega arith))
window-set a x (suc n) h i hs hh hn e =
    ap₂ ◌∷◌ (get_or-set_ne a x 0 (omega arith))
      (window-set a x n ((h + 1) % 16) i hs (omega arith) (omega arith) (omega arith))

window_of_pos :
    (a : List ℕ) (h n m : ℕ) → n ≡ suc m → window a h n ≡ get_or a h 0 ∷ window a ((h + 1) % 16) m
window_of_pos a h n m e = rw e

-- `size` returns the number of payloads, and its own assertion holds.
pub size-count : {q : Queue} → IsValid q → size q ≡ some (count q)
unfolding size
size-count {q} v = ground arith

-- `empty` says whether the contents are empty.
pub empty-contents : {q : Queue} → IsValid q → (empty q ≡ true) ↔ (count q ≡ 0)
unfolding empty
empty-contents {q} v = ground arith

-- `queue_init` makes any array of 16 slots an empty valid queue.
pub queue_init-IsValid :
    (q : Queue) → length q.array ≡ 16 → IsValid (queue_init q) × (contents (queue_init q) ≡ [])
unfolding queue_init
queue_init-IsValid q h = (omega arith, refl)

-- On a valid queue with room `push_back` returns a valid queue with the payload behind the others.
pub push_back-contents :
    {q : Queue} (x : ℕ)
    → IsValid q
    → count q < 5
    → (q' : Queue) × (push_back q x ≡ some q') × IsValid q' × (contents q' ≡ contents q ++ (x ∷ []))
unfolding push_back
push_back-contents {q} x v room = (
  record q { array = set q.array q.tail x; tail = (q.tail + 1) % u32 % 16 },
  ground arith,
  ground (arith, length-set q.array q.tail x),
  rw (count-succ)
      (window-set q.array x (count q) q.head q.tail v.slots v.head_in (omega arith) (omega arith)),
)
  where
    count-succ : ((q.tail + 1) % u32 % 16 + 16 - q.head) % 16 ≡ suc (count q)
    count-succ = omega arith

-- On a valid queue of five payloads the assertion of `push_back` fails.
pub push_back_full : {q : Queue} (x : ℕ) → IsValid q → count q ≡ 5 → push_back q x ≡ none
unfolding push_back
push_back_full x v full = ground arith

-- On a valid nonempty queue `pop_front` returns the oldest payload, and leaves the others valid.
pub pop_front-contents :
    {q : Queue} (n : ℕ)
    → IsValid q
    → count q ≡ suc n
    → (x : ℕ) × (q' : Queue) × (pop_front q ≡ some (x, q'))
      × IsValid q'
      × (contents q ≡ x ∷ contents q')
unfolding pop_front
pop_front-contents {q} n v some_left = (
  get_or q.array q.head 0,
  record q { head = (q.head + 1) % u32 % 16 },
  ground arith,
  omega arith,
  window_of_pos q.array q.head (count q) rest (omega arith)
      ∙ ap (λ h. get_or q.array q.head 0 ∷ window q.array h rest) (omega arith),
)
  where
    rest : ℕ
    rest = (q.tail + 16 - (q.head + 1) % u32 % 16) % 16

-- On a valid empty queue the assertion of `pop_front` fails.
pub pop_front_empty : {q : Queue} → IsValid q → count q ≡ 0 → pop_front q ≡ none
unfolding pop_front
pop_front_empty v none_left = ground arith
