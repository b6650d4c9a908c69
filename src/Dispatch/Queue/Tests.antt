-- ===== src/Dispatch/Queue/Tests.antt =====
-- Runs of the queue, and its theorems at concrete queues.
use cs61_psets.Common.{◌≡◌, refl, some, [], ◌∷◌, ◌++◌, arith, replicate}
use cs61_psets.Dispatch.Queue.{Queue, size, push_back, pop_front}
use cs61_psets.Dispatch.Queue.Fifo.{Agree, PopsAgree, enqueue, dequeue, queue_refines_fifo}
use cs61_psets.Dispatch.Queue.Order.{IsValid, contents}

-- 8 in the last slot, and 9 behind it in the first
abbrev wrapped : Queue
wrapped = record { head = 15; tail = 1; array = 9 ∷ (replicate 14 0 ++ (8 ∷ [])) }

abbrev full : Queue
full = record { head = 0; tail = 5; array = 1 ∷ 2 ∷ 3 ∷ 4 ∷ 5 ∷ replicate 11 0 }

wrapped-IsValid : IsValid wrapped
wrapped-IsValid = omega arith

full-IsValid : IsValid full
full-IsValid = omega arith

pop_front-wrapped : pop_front wrapped ≡ some (8, record wrapped { head = 0 })
unfolding pop_front
pop_front-wrapped = refl

size-wrapped : size wrapped ≡ some 2
unfolding size
size-wrapped = refl

queue_refines_fifo_example :
    Agree (push_back full 7) (enqueue (contents full) 7)
    × PopsAgree (pop_front full) (dequeue (contents full))
queue_refines_fifo_example = queue_refines_fifo full 7 full-IsValid
