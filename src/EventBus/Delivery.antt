-- ===== src/EventBus/Delivery.antt =====
-- Events are delivered in the order in which they were published, each once.
use testhub.Base.{
  ℕ, is_empty, is_none, ◌&&◌, ◌≡◌, refl, sym, ap, ◌∙◌, true, List, [], ◌∷◌, ◌++◌, map, Option, none,
  some, keep, Bool-cases, inl, inr,
}
use mathlib.Core.List.{append-nil, append_assoc}
use testhub.Model.{Event}
use testhub.EventBus.Patterns.{IsHeard, matches_iff}
use testhub.EventBus.{
  HandlerEntry, matches, EventBus, publish_history, publish_queue, step_take, step_call, targets, is_idle,
}

-- The steps of the publishers and of the dispatcher, in any order, with the events put into the
-- queue. The handlers stay as they are.
pub data Run (start : EventBus) : EventBus → List Event → Type 0 where
  here : Run start start []
  notes :
      {b : EventBus} {es : List Event}
      → Run start b es
      → (e : Event) → Run start (publish_history b e) es
  queues :
      {b : EventBus} {es : List Event}
      → Run start b es
      → (e : Event) → Run start (publish_queue b e) (es ++ (e ∷ []))
  takes :
      {b : EventBus} {es : List Event}
      → Run start b es
      → b.dispatching ≡ none
      → Run start (step_take b) es
  calls : {b : EventBus} {es : List Event} → Run start b es → Run start (step_call b) es

abbrev held : Option Event → List Event
held none = []
held (some e) = e ∷ []

-- The calls for a list of events, one after the other.
abbrev calls_for : EventBus → List Event → List (ℕ × Event)
calls_for b [] = []
calls_for b (e ∷ es) = map (λ h. (h, e)) (targets b e) ++ calls_for b es

calls_for-append :
    (b : EventBus) (es fs : List Event) → calls_for b (es ++ fs) ≡ calls_for b es ++ calls_for b fs
calls_for-append b [] fs = refl
calls_for-append b (e ∷ es) fs =
    ap (λ l. map (λ h. (h, e)) (targets b e) ++ l) (calls_for-append b es fs)
    ∙ sym (append_assoc (map (λ h. (h, e)) (targets b e)) (calls_for b es) (calls_for b fs))

-- The handlers that get an event: those whose pattern matches, in the order of the entries.
pub data Heard (event : Event) : List HandlerEntry → List ℕ → Type 0 where
  none_left : Heard event [] []
  hears :
      {h : HandlerEntry} {hs : List HandlerEntry} {ns : List ℕ}
      → IsHeard h.pattern event.type
      → Heard event hs ns
      → Heard event (h ∷ hs) (h.handler ∷ ns)
  misses :
      {h : HandlerEntry} {hs : List HandlerEntry} {ns : List ℕ}
      → ¬ IsHeard h.pattern event.type
      → Heard event hs ns
      → Heard event (h ∷ hs) ns

-- The calls for a list of events: event by event, each once for every handler that gets it.
pub data Delivers (handlers : List HandlerEntry) : List Event → List (ℕ × Event) → Type 0 where
  all_done : Delivers handlers [] []
  next :
      {e : Event} {es : List Event} {ns : List ℕ} {cs : List (ℕ × Event)}
      → Heard e handlers ns
      → Delivers handlers es cs
      → Delivers handlers (e ∷ es) (map (λ n. (n, e)) ns ++ cs)

targets-Heard :
    (event : Event) (hs : List HandlerEntry)
    → Heard event hs
        (map (λ (h : HandlerEntry). h.handler)
          (keep (λ (h : HandlerEntry). matches h.pattern event.type) hs))
targets-Heard event [] = none_left
targets-Heard event (h ∷ hs) = elim (Bool-cases (matches h.pattern event.type)) [
  | inl e ↦ rw e (hears ((matches_iff h.pattern event.type).0 e) (targets-Heard event hs))
  | inr e ↦
      rw e
        (misses
          (λ heard. let yes = (matches_iff h.pattern event.type).1 heard in cc)
          (targets-Heard event hs))
]

calls_for-Delivers : (b : EventBus) (es : List Event) → Delivers b.handlers es (calls_for b es)
calls_for-Delivers b [] = all_done
calls_for-Delivers b (e ∷ es) = next (targets-Heard e b.handlers) (calls_for-Delivers b es)

-- Where a run stands.
record Stands (start b : EventBus) (es : List Event) : Type 0 where
  delivered : List Event
  same : b.handlers ≡ start.handlers
  split :
      held start.dispatching ++ (start.queue ++ es) ≡ delivered ++ (held b.dispatching ++ b.queue)
  called : b.calls ≡ start.calls ++ calls_for start delivered

take-Stands :
    (start b : EventBus) (es : List Event)
    → b.dispatching ≡ none
    → Stands start b es
    → Stands start (step_take b) es
unfolding step_take
take-Stands start b es idle s = by_queue b.queue refl
  where
    by_queue : (q : List Event) → b.queue ≡ q → Stands start (step_take b) es
    by_queue [] e = rw (e, step_take) s
    by_queue (event ∷ events) e =
        let front : held b.dispatching ++ b.queue ≡ event ∷ events = rw (idle, e) refl in
        rw (e, step_take)
          (record {
            delivered = s.delivered;
            same = s.same;
            split = s.split ∙ ap (λ l. s.delivered ++ l) front;
            called = s.called;
          })

call-Stands :
    (start b : EventBus) (es : List Event) → Stands start b es → Stands start (step_call b) es
unfolding step_call
call-Stands start b es s = by_event b.dispatching refl
  where
    by_event : (o : Option Event) → b.dispatching ≡ o → Stands start (step_call b) es
    by_event none e = rw (e, step_call) s
    by_event (some event) e =
        let front : held b.dispatching ++ b.queue ≡ event ∷ b.queue = rw e refl in
        let heard : targets b event ≡ targets start event =
          ap (λ hs. targets (record start { handlers = hs }) event) s.same in
        rw (e, step_call)
          (record {
            delivered = s.delivered ++ (event ∷ []);
            same = s.same;
            split =
                s.split
                ∙ ap (λ l. s.delivered ++ l) front
                ∙ sym (append_assoc s.delivered (event ∷ []) b.queue);
            called =
                ap (λ l. l ++ map (λ h. (h, event)) (targets b event)) s.called
                ∙ append_assoc start.calls (calls_for start s.delivered)
                    (map (λ h. (h, event)) (targets b event))
                ∙ ap (λ l. start.calls ++ l)
                    (ap (λ ts. calls_for start s.delivered ++ map (λ h. (h, event)) ts) heard
                      ∙ ap (λ l. calls_for start s.delivered ++ l) (sym (append-nil _))
                      ∙ sym (calls_for-append start s.delivered (event ∷ [])));
          })

queue-Stands :
    (start b : EventBus) (es : List Event) (e : Event)
    → Stands start b es
    → Stands start (publish_queue b e) (es ++ (e ∷ []))
unfolding publish_queue
queue-Stands start b es e s = record {
  delivered = s.delivered;
  same = s.same;
  split = let h = ap (λ l. l ++ (e ∷ [])) s.split in simp append_assoc at h;
  called = s.called;
}

Run-Stands : {start b : EventBus} {es : List Event} → Run start b es → Stands start b es
unfolding publish_history
Run-Stands {start} here = record {
  delivered = [];
  same = refl;
  split = ap (λ l. held start.dispatching ++ l) (append-nil start.queue);
  called = sym (append-nil start.calls);
}
Run-Stands (notes r e) =
    let s = Run-Stands r in
    record { delivered = s.delivered; same = s.same; split = s.split; called = s.called }
Run-Stands (queues r e) = queue-Stands _ _ _ e (Run-Stands r)
Run-Stands (takes r idle) = take-Stands _ _ _ idle (Run-Stands r)
Run-Stands (calls r) = call-Stands _ _ _ (Run-Stands r)

idle-empty :
    (b : EventBus) (es : List Event) → is_idle b ≡ true → held b.dispatching ++ (b.queue ++ es) ≡ es
idle-empty b es h = by_parts b.dispatching b.queue h
  where
    by_parts :
        (o : Option Event) (q : List Event)
        → (is_empty q && is_none o) ≡ true
        → held o ++ (q ++ es) ≡ es
    by_parts none [] h = refl
    by_parts (some event) [] h = cc
    by_parts none (event ∷ q) h = cc
    by_parts (some e) (event ∷ q) h = cc

-- From a bus with an empty queue and nothing in delivery, in a run in which the handlers stay as
-- they are, when the bus is idle again, the calls made since are those for the events that were
-- queued, in that order: each event once for each handler whose pattern is `*`, is the event's type,
-- or ends in `.*` behind the start of the type up to a dot, in the order of their subscription.
pub Run-calls :
    {start b : EventBus} {es : List Event}
    → Run start b es
    → is_idle start ≡ true
    → is_idle b ≡ true
    → (cs : List (ℕ × Event)) × (b.calls ≡ start.calls ++ cs) × Delivers start.handlers es cs
Run-calls {start} {b} {es} r first last =
    let s = Run-Stands r in
    let every : es ≡ s.delivered =
      sym (idle-empty start es first)
      ∙ s.split
      ∙ ap (λ l. s.delivered ++ (held b.dispatching ++ l)) (sym (append-nil b.queue))
      ∙ ap (λ l. s.delivered ++ l) (idle-empty b [] last)
      ∙ append-nil s.delivered in
    (
      calls_for start es,
      s.called ∙ ap (λ l. start.calls ++ calls_for start l) (sym every),
      calls_for-Delivers start es,
    )
