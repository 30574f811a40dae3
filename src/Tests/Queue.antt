-- ===== src/Tests/Queue.antt =====
-- The command queue of cmd/commandqueue.go in use.
use aerosmart_gateway.Base.{codes, refl, [], ◌∷◌}
use aerosmart_gateway.Base.Int.{pos}
use aerosmart_gateway.Cmd.Queue.{Command, new_command_queue, enqueue}
use aerosmart_gateway.Cmd.Queue.Fifo.{
  System, arrive, take, Reach, here, next, start, IsOrdered, Reach-IsOrdered,
}

abbrev first : Command
first = record { topic = codes "stage"; payload = codes "1" }

abbrev second : Command
second = record { topic = codes "stage"; payload = codes "3" }

-- Two arrivals at a queue of depth one: the second is dropped, the first is handled.
abbrev after_one : System
after_one = record {
  queue = record { depth = 1; waiting = first ∷ [] };
  arrived = first ∷ [];
  handled = [];
  dropped = 0;
}

abbrev after_two : System
after_two = record after_one { arrived = first ∷ second ∷ []; dropped = 1 }

abbrev after_take : System
after_take = record after_two { queue = record { depth = 1; waiting = [] }; handled = first ∷ [] }

run : Reach (start (pos 0)) after_take
unfolding start new_command_queue enqueue
run =
    next (next (next here (arrive (start (pos 0)) first)) (arrive after_one second))
      (take after_two first [] refl)

Reach-IsOrdered_example : IsOrdered after_take
Reach-IsOrdered_example = Reach-IsOrdered (pos 0) run
