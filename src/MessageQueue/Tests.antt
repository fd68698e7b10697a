-- ===== src/MessageQueue/Tests.antt =====
-- Multiprocessing/msgQueueDemo.cpp: the parent polls twice, before and after the child sends.
use linux_websocket.Prelude.{refl, true, [], ◌∷◌}
use linux_websocket.MessageQueue.{
  Queue, hello_world, exited, received, start, step, by_child, by_parent,
}
use linux_websocket.MessageQueue.Polling.{Outcome, message_received}

abbrev done : Queue
done = record { messages = []; child = exited; parent = received hello_world }

message_received_example : Outcome true true done
unfolding step start
message_received_example =
    message_received true true done (by_parent ∷ by_child ∷ by_parent ∷ []) refl
