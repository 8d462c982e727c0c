-- ===== src/Examples/Events.antt =====
-- The event bus.
use testhub.Base.{ℕ, List, ◌≡◌, ◌++◌, refl, [], ◌∷◌, codes}
use testhub.Model.{Event}
use testhub.EventBus.{EventBus, initial, subscribe, publish_queue, step_take, step_call}
use testhub.EventBus.Delivery.{Run, Delivers, Run-calls}

abbrev started : Event
started = record { type = codes "test.started"; test_id = codes "a"; timestamp = 1; content = [] }

abbrev one_event : EventBus
one_event = record initial { history = started ∷ []; history_limit = 1 }

abbrev one_handler : EventBus
one_handler = (subscribe initial (codes "test.*") 7).0

one_run : Run one_handler (step_call (step_take (publish_queue one_handler started))) (started ∷ [])
unfolding subscribe publish_queue
one_run = Run.calls (Run.takes (Run.queues Run.here started) refl)

calls_example :
    (cs : List (ℕ × Event))
    × ((step_call (step_take (publish_queue one_handler started))).calls
      ≡ one_handler.calls ++ cs)
    × Delivers one_handler.handlers (started ∷ []) cs
unfolding subscribe publish_queue step_take step_call
calls_example = Run-calls one_run refl refl
