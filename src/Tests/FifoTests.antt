-- ===== src/Tests/FifoTests.antt =====
-- be's `fifo`: threads that push and pop one after the other and at the same time.
use eparallel.Common.{ℕ, zero, suc, ◌≤◌, ◌<◌, ◌≡◌, ◌⊎◌, refl, some, true, arith}
use eparallel.Be.Fifo.{
  World, Act, calls_push, calls_pop, goes_on, run, Reach, here, then_run, start, linking, idle,
}
use eparallel.Be.Fifo.Order.{fifo_order}
use eparallel.Be.Fifo.Settled.{fifo_links}

abbrev goes : Act ℕ
goes = goes_on true 99 99

-- Thread `t` goes on for some steps.
abbrev steps : ℕ → ℕ → World ℕ → World ℕ
steps zero t w = w
steps (suc n) t w = steps n t (run goes t w)

steps-Reach : {w : World ℕ} (n t : ℕ) {u : World ℕ} → Reach w u → Reach w (steps n t u)
steps-Reach zero t {u} r = r
steps-Reach (suc n) t {u} r = steps-Reach n t {u = run goes t u} (then_run r goes t tt)

abbrev push_to : ℕ → ℕ → ℕ → World ℕ → World ℕ
push_to t v nod w = run (calls_push v nod) t w

abbrev empty : World ℕ
empty = start 0 (λ a. 77) (λ a. 55)

-- Thread 1 has pushed 7; thread 2 has made the exchange of its push of 8, and no more.
abbrev one_pushed : World ℕ
one_pushed = steps 5 1 (push_to 1 7 10 empty)

abbrev half_pushed : World ℕ
half_pushed = steps 3 2 (push_to 2 8 20 one_pushed)

half_pushed-Reach : Reach empty half_pushed
unfolding run
half_pushed-Reach = steps-Reach 3 2 (
    then_run (steps-Reach 5 1 (then_run here (calls_push 7 10) 1 (omega arith, refl)))
      (calls_push 8 20) 2 (omega arith, refl))

-- A pop finds no next behind the head, and answers false.
pop_between : (steps 4 3 (run calls_pop 3 half_pushed)).threads 3 ≡ idle
unfolding run
pop_between = refl

abbrev after_pop : World ℕ
after_pop = steps 5 3 (run calls_pop 3 (steps 2 2 half_pushed))

after_pop-Reach : Reach empty after_pop
after_pop-Reach = steps-Reach 5 3 (then_run (steps-Reach 2 2 half_pushed-Reach) calls_pop 3 tt)

handed_seven : after_pop.shared.popped_val 0 ≡ some 7
unfolding run
handed_seven = refl

fifo_order_example :
    (after_pop.shared.pushed_val 0 ≡ 7)
    × (0 < after_pop.shared.pops)
    × (after_pop.shared.pops ≤ after_pop.shared.pushes)
fifo_order_example = fifo_order 0 (λ a. 77) (λ a. 55) after_pop 0 7 after_pop-Reach handed_seven

none_popped : half_pushed.shared.pops ≤ 0
unfolding run
none_popped = omega arith

two_exchanges : 1 < half_pushed.shared.pushes
unfolding run
two_exchanges = omega arith

fifo_links_example :
    (half_pushed.shared.val (half_pushed.shared.pushed_node 0) ≡ half_pushed.shared.pushed_val 0)
    × ((half_pushed.shared.next (half_pushed.shared.pushed_node 0)
          ≡ half_pushed.shared.pushed_node 1)
        ⊎ ((half_pushed.shared.next (half_pushed.shared.pushed_node 0) ≡ 0)
            × (s : ℕ) × (half_pushed.threads s
                ≡ linking (half_pushed.shared.pushed_node 1) (half_pushed.shared.pushed_node 0))))
fifo_links_example =
    fifo_links 0 (λ a. 77) (λ a. 55) half_pushed 0 half_pushed-Reach none_popped two_exchanges

-- Where the allocator gives addresses again: thread 9 has looked at the queue 10, 20, 30; the
-- queue is emptied and filled again as 10, 40, 30; the exchange of thread 9 succeeds, and the head
-- is the freed node 20.
abbrev pushed : ℕ → ℕ → World ℕ → World ℕ
pushed v nod w = steps 5 1 (push_to 1 v nod w)

abbrev emptied : ℕ → World ℕ → World ℕ
emptied zero w = w
emptied (suc n) w = emptied n (steps 6 8 (run calls_pop 8 w))

abbrev looked : World ℕ
looked = steps 3 9 (run calls_pop 9 (pushed 3 30 (pushed 2 20 (pushed 1 10 empty))))

abbrev refilled : World ℕ
refilled = pushed 6 30 (pushed 5 40 (pushed 4 10 (emptied 3 looked)))

addresses_again : (steps 1 9 refilled).shared.m_info ≡ record { head = 20; tail = 30 }
unfolding run
addresses_again = refl
