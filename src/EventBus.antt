-- ===== src/EventBus.antt =====
-- src/event/event_bus.h and event_bus.cpp: subscriptions, the history, and the dispatcher.
--
-- A handler is the number of the function that was passed, and a call of it is an entry of `calls`.
-- `step_take` and `step_end` are the dispatcher's sections under the queue's lock; what it does
-- between them, with the event that it holds, is `step_call`.

pub mod Patterns
pub mod History
pub mod Delivery
use testhub.Base.{
  is_none, ℕ, zero, suc, ◌+◌, ◌-◌, ◌%◌, ◌^◌, Bool, true, false, not, ◌&&◌, ◌||◌, List, [], ◌∷◌,
  ◌++◌, map, reverse, Option, none, some, length, is_empty, keep, count, drop, ltb, leb, max, ◌==◌,
  if◌then◌else◌, Text, codes, text_eq, to_string,
}
use testhub.StringUtil.{starts_with, ends_with}
use testhub.Model.{Event}

pub record HandlerEntry : Type 0 where
  pub id : Text
  pub pattern : Text
  pub handler : ℕ

pub record EventBus : Type 0 where
  pub handlers : List HandlerEntry
  pub handler_counter : ℕ
  pub queue : List Event
  pub dispatching : Option Event
  pub history : List Event
  pub history_limit : ℕ
  pub published : ℕ
  pub calls : List (ℕ × Event)

abbrev pub initial : EventBus
initial = record {
  handlers = [];
  handler_counter = 0;
  queue = [];
  dispatching = none;
  history = [];
  history_limit = 500;
  published = 0;
  calls = [];
}

-- The pattern without its last byte.
unfoldable pub drop_last : Text → Text
drop_last [] = []
drop_last (c ∷ []) = []
drop_last (c ∷ d ∷ cs) = c ∷ drop_last (d ∷ cs)

-- `*`, the type itself, or a prefix that ends in a dot, with `*` behind it.
unfoldable pub matches : Text → Text → Bool
matches pattern type =
    if text_eq pattern (codes "*") || text_eq pattern type
    then true
    else if ends_with pattern (codes ".*")
    then starts_with type (drop_last pattern)
    else false

unfoldable pub subscribe : EventBus → Text → ℕ → EventBus × Text
subscribe b pattern handler =
    let counter = b.handler_counter + 1 in
    let id = codes "handler_" ++ to_string counter in
    (
      record b {
        handlers = b.handlers ++ (record { id = id; pattern = pattern; handler = handler } ∷ []);
        handler_counter = counter;
      },
      id,
    )

unfoldable pub unsubscribe : EventBus → Text → EventBus
unsubscribe b id = record b {
  handlers = keep (λ (h : HandlerEntry). not (text_eq h.id id)) b.handlers;
}

-- `while (history_.size() > limit) history_.pop_front()`.
unfoldable pub trim_front : ℕ → List Event → List Event
trim_front limit [] = []
trim_front limit (e ∷ es) =
    let rest = trim_front limit es in if ltb limit (length (e ∷ es)) then rest else e ∷ es

-- `publish` counts the event, then adds it to the history and to the queue, each under its lock.
unfoldable pub publish_history : EventBus → Event → EventBus
publish_history b event = record b {
  history = trim_front b.history_limit (b.history ++ (event ∷ []));
  published = (b.published + 1) % 2 ^ 64;
}

unfoldable pub publish_queue : EventBus → Event → EventBus
publish_queue b event = record b { queue = b.queue ++ (event ∷ []) }

-- A call with no other thread between the sections.
abbrev pub publish : EventBus → Event → EventBus
publish b event = publish_queue (publish_history b event) event

-- The handlers whose pattern matches, in the order of their subscription.
abbrev pub targets : EventBus → Event → List ℕ
targets b event =
    map (λ (h : HandlerEntry). h.handler)
      (keep (λ (h : HandlerEntry). matches h.pattern event.type) b.handlers)

-- The dispatcher takes the front of the queue.
unfoldable pub step_take : EventBus → EventBus
step_take b = elim b.queue [
  | [] ↦ b
  | event ∷ events ↦ record b { queue = events; dispatching = some event }
]

-- It calls the handlers, and goes on when one throws.
unfoldable pub step_call : EventBus → EventBus
step_call b = elim b.dispatching [
  | none ↦ b
  | some event ↦ record b {
    calls = b.calls ++ map (λ h. (h, event)) (targets b event);
    dispatching = none;
  }
]

-- The condition that `waitForIdle` waits for.
abbrev pub is_idle : EventBus → Bool
is_idle b = is_empty b.queue && is_none b.dispatching

-- The loop of `recentEvents` over the reversed history.
unfoldable pub recent_loop : ℕ → Text → List Event → List Event → List Event
recent_loop limit id [] out = out
recent_loop limit id (e ∷ es) out = elim (ltb (length out) limit) [
  | false ↦ out
  | true ↦ elim (not (is_empty id) && not (text_eq e.test_id id)) [
    | true ↦ recent_loop limit id es out
    | false ↦ recent_loop limit id es (out ++ (e ∷ []))
  ]
]

abbrev pub recent_events : EventBus → ℕ → Text → List Event
recent_events b limit id = reverse (recent_loop limit id (reverse b.history) [])

unfoldable pub set_history_limit : EventBus → ℕ → EventBus
set_history_limit b limit =
    let n = max 1 limit in record b { history_limit = n; history = trim_front n b.history }

abbrev pub clear : EventBus → EventBus
clear b = record b { handlers = []; history = [] }

unfoldable pub get_handler_count : EventBus → Text → ℕ
get_handler_count b type =
    if is_empty type
    then length b.handlers
    else count (λ (h : HandlerEntry). text_eq h.pattern type) b.handlers
