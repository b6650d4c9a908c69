-- ===== src/Dispatch/Queue.antt =====
-- pset5/dispatch/queue.c and queue.h: a circular FIFO of pointers in an array of 16 slots.
pub mod Order
pub mod Fifo
mod Tests
use cs61_psets.Common.{
  ℕ, ◌+◌, ◌-◌, ◌%◌, ◌≡◌, ◌≤◌, ◌<◌, Bool, Option, none, some, List, ◌∷◌, ltb, leb, ◌==◌, not, assert,
  ◌>>=◌, ◌>>◌, get_or, set, length,
}
use cs61_psets.Common.Bytes.{u32}

-- QUEUE_BUF_SIZE
abbrev pub queue_buf_size : ℕ
queue_buf_size = 15

-- MAX_QUEUE_SIZE
abbrev pub max_queue_size : ℕ
max_queue_size = 5

-- `queue_t`. The queue never looks through a payload, so a pointer is a number.
pub record Queue : Type 0 where
  pub head : ℕ
  pub tail : ℕ
  pub array : List ℕ

-- `queue_init` leaves the array as it finds it.
unfoldable pub queue_init : Queue → Queue
queue_init q = record q { head = 0; tail = 0 }

-- `none` is a failed assertion. The subtraction is of `unsigned int`.
unfoldable pub size : Queue → Option ℕ
size q = do
  let sz = ((q.tail + u32 - q.head) % u32) % (queue_buf_size + 1)
  assert (leb sz max_queue_size)
  some sz

unfoldable pub push_back : Queue → ℕ → Option Queue
unfolding size
push_back q payload = do
  sz ← size q
  assert (ltb sz max_queue_size)
  some (record q {
    array = set q.array q.tail payload;
    tail = (q.tail + 1) % u32 % (queue_buf_size + 1);
  })

unfoldable pub pop_front : Queue → Option (ℕ × Queue)
unfolding size
pop_front q = do
  sz ← size q
  assert (not (sz == 0))
  sz ← size q
  assert (leb sz max_queue_size)
  some (get_or q.array q.head 0, record q { head = (q.head + 1) % u32 % (queue_buf_size + 1) })

unfoldable pub empty : Queue → Bool
empty q = q.head == q.tail
