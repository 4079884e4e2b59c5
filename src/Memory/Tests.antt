-- ===== src/Memory/Tests.antt =====
-- The queue of src/core/qp_memory_core.h in concrete memory: the heads 10 and 20, and nodes 11 to 13.
use qphi.Common.{ℕ, ◌≡◌, refl, true, false, [], ◌∷◌, arith, has}
use qphi.Memory.Ring.{
  Links, queue_init, queue_insert_after_head, queue_insert_after_tail, queue_last, queue_remove,
  queue_split, queue_merge, IsQueue,
}
use qphi.Memory.Queue.{
  queue_init-IsQueue, queue_insert_after_tail-IsQueue, queue_insert_after_head-IsQueue,
  queue_remove-IsQueue,
}
use qphi.Memory.Divide.{queue_split-IsQueue, queue_merge-IsQueue}

abbrev blank : Links
blank = record { prev = λ a. 0; next = λ a. 0 }

abbrev empty : Links
empty = queue_init 10 blank

abbrev one : Links
one = queue_insert_after_tail 10 12 empty

abbrev two : Links
two = queue_insert_after_tail 10 13 one

abbrev three : Links
three = queue_insert_after_head 10 11 two

order_test : queue_last 10 (queue_remove 13 three) ≡ 12
unfolding queue_last queue_init queue_insert_after_tail queue_insert_after_head queue_remove
order_test = refl

queue_init-IsQueue_example : IsQueue empty 10 []
queue_init-IsQueue_example = queue_init-IsQueue 10 blank (λ e. omega (arith, e))

one-IsQueue : IsQueue one 10 (12 ∷ [])
one-IsQueue =
    queue_insert_after_tail-IsQueue empty 10 12 []
      (queue_init-IsQueue 10 blank (λ e. omega (arith, e))) (λ e. omega (arith, e)) refl

queue_insert_after_tail-IsQueue_example : IsQueue two 10 (12 ∷ 13 ∷ [])
queue_insert_after_tail-IsQueue_example =
    queue_insert_after_tail-IsQueue one 10 13 (12 ∷ []) one-IsQueue (λ e. omega (arith, e)) refl

two-IsQueue : IsQueue two 10 (12 ∷ 13 ∷ [])
two-IsQueue =
    queue_insert_after_tail-IsQueue one 10 13 (12 ∷ []) one-IsQueue (λ e. omega (arith, e)) refl

three-IsQueue : IsQueue three 10 (11 ∷ 12 ∷ 13 ∷ [])
three-IsQueue =
    queue_insert_after_head-IsQueue two 10 11 (12 ∷ 13 ∷ []) two-IsQueue (λ e. omega (arith, e))
      refl

queue_remove-IsQueue_example : IsQueue (queue_remove 12 three) 10 (11 ∷ 13 ∷ [])
queue_remove-IsQueue_example = queue_remove-IsQueue three 10 12 (11 ∷ []) (13 ∷ []) three-IsQueue

queue_split-IsQueue_example :
    IsQueue (queue_split 10 12 20 three) 10 (11 ∷ [])
    × IsQueue (queue_split 10 12 20 three) 20 (12 ∷ 13 ∷ [])
queue_split-IsQueue_example =
    queue_split-IsQueue three 10 12 20 (11 ∷ []) (13 ∷ []) three-IsQueue (λ e. omega (arith, e))
      refl

halves :
    IsQueue (queue_split 10 12 20 three) 10 (11 ∷ [])
    × IsQueue (queue_split 10 12 20 three) 20 (12 ∷ 13 ∷ [])
halves =
    queue_split-IsQueue three 10 12 20 (11 ∷ []) (13 ∷ []) three-IsQueue (λ e. omega (arith, e))
      refl

halves_apart : (a : ℕ) → has a (20 ∷ 12 ∷ 13 ∷ []) ≡ true → has a (10 ∷ 11 ∷ []) ≡ false
halves_apart a i = ground arith

queue_merge-IsQueue_example :
    IsQueue (queue_merge 10 20 (queue_split 10 12 20 three)) 10 (11 ∷ 12 ∷ 13 ∷ [])
queue_merge-IsQueue_example =
    queue_merge-IsQueue (queue_split 10 12 20 three) 10 20 (11 ∷ []) (12 ∷ 13 ∷ []) halves.0
      halves.1 halves_apart
