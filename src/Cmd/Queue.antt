-- ===== src/Cmd/Queue.antt =====
-- cmd/commandqueue.go: the queue between the MQTT callbacks and the one worker that applies commands.
-- The channel is the list of what waits in it, the oldest first.
pub mod Fifo
use aerosmart_gateway.Base.{
  ℕ, ◌≡◌, Bool, true, false, List, [], ◌∷◌, ◌++◌, Bytes, length, ltb, if◌then◌else◌,
}
use aerosmart_gateway.Base.Int.{ℤ, pos, max_ℤ, pos_part}

pub record Command : Type 0 where
  pub topic : Bytes
  pub payload : Bytes

pub record CommandQueue : Type 0 where
  pub depth : ℕ
  pub waiting : List Command

-- newCommandQueue
unfoldable pub new_command_queue : ℤ → CommandQueue
new_command_queue depth = record { depth = pos_part (max_ℤ depth (pos 1)); waiting = [] }

-- enqueue: a send that does not block, and whether the command was taken
unfoldable pub enqueue : Command → CommandQueue → CommandQueue × Bool
enqueue c q =
    if ltb (length q.waiting) q.depth
    then (record q { waiting = q.waiting ++ c ∷ [] }, true)
    else (q, false)
