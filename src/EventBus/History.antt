-- ===== src/EventBus/History.antt =====
-- The history holds the latest events, up to its limit, and `recentEvents` is a part of it.
use testhub.Base.{
  ℕ, suc, ◌-◌, ◌≡◌, refl, sym, ap, ◌∙◌, arith, inl, inr, Bool, true, false, not, ◌&&◌, ◌||◌, List,
  [], ◌∷◌, ◌++◌, reverse, length, drop, take, keep, ltb, max, is_empty, length-append, take-nil,
  drop-nil, Bool-cases, Text, text_eq,
}
use mathlib.Core.List.{append-nil, append_assoc}
use testhub.Model.{Event}
use testhub.EventBus.{
  EventBus, trim_front, publish_history, publish_queue, publish, set_history_limit, recent_loop,
  recent_events,
}

trim_front-drop : (limit : ℕ) (es : List Event) → trim_front limit es ≡ drop (length es - limit) es
unfolding trim_front
trim_front-drop limit [] = sym (drop-nil {A = Event} (0 - limit))
trim_front-drop limit (e ∷ es) = elim (Bool-cases (ltb limit (length (e ∷ es)))) [
  | inl over ↦
      let one : suc (length es) - limit ≡ suc (length es - limit) = ground arith in
      rw (over, one) (trim_front-drop limit es)
  | inr fits ↦
      let none_over : suc (length es) - limit ≡ 0 = ground arith in rw (fits, none_over) refl
]

-- Publishing an event appends it to the history, of which the latest events stay, as many as the
-- limit says; a new limit, at least 1, keeps the latest events in the same way.
publish-history :
    (b : EventBus) (event : Event) (n : ℕ)
    → ((publish b event).history
        ≡ drop (suc (length b.history) - b.history_limit) (b.history ++ (event ∷ [])))
      × ((set_history_limit b n).history ≡ drop (length b.history - max 1 n) b.history)
unfolding publish_history publish_queue set_history_limit
publish-history b event n =
    let longer : length (b.history ++ (event ∷ [])) ≡ suc (length b.history) =
      omega (arith, length-append b.history (event ∷ [])) in
    (
      trim_front-drop b.history_limit (b.history ++ (event ∷ []))
          ∙ ap (λ k. drop (k - b.history_limit) (b.history ++ (event ∷ []))) longer,
      trim_front-drop (max 1 n) b.history,
    )

-- The events of a test, or all for the empty id.
abbrev pub is_about : Text → Event → Bool
is_about id e = is_empty id || text_eq e.test_id id

recent_loop-take :
    (limit : ℕ) (id : Text) (es out : List Event)
    → recent_loop limit id es out ≡ out ++ take (limit - length out) (keep (is_about id) es)
unfolding recent_loop
recent_loop-take limit id [] out =
    rw (take-nil {A = Event} (limit - length out)) (sym (append-nil out))
recent_loop-take limit id (e ∷ es) out = elim (Bool-cases (ltb (length out) limit)) [
  | inr full ↦
      let none_left : limit - length out ≡ 0 = ground arith in
      rw (full, recent_loop, none_left) (sym (append-nil out))
  | inl room ↦ elim (Bool-cases (not (is_empty id) && not (text_eq e.test_id id))) [
    | inl other ↦
        let out_of : is_about id e ≡ false = ground arith in
        rw (room, recent_loop, other, out_of) (recent_loop-take limit id es out)
    | inr same ↦
        let about : is_about id e ≡ true = ground arith in
        let one : limit - length out ≡ suc (limit - suc (length out)) = ground arith in
        let longer : length (out ++ (e ∷ [])) ≡ suc (length out) =
          omega (arith, length-append out (e ∷ [])) in
        rw
          (
            room,
            recent_loop,
            same,
            about,
            recent_loop-take limit id es (out ++ (e ∷ [])),
            longer,
            one,
          )
          (append_assoc out (e ∷ []) _)
  ]
]

-- `recentEvents` gives the latest events of the history that are about the test, or about any if
-- none is named, at most `limit` of them and in their order.
recent_events-take :
    (b : EventBus) (limit : ℕ) (id : Text)
    → recent_events b limit id ≡ reverse (take limit (keep (is_about id) (reverse b.history)))
recent_events-take b limit id =
    let l : limit - 0 ≡ limit = omega arith in
    ap reverse (
      recent_loop-take limit id (reverse b.history) []
      ∙ ap (λ n. take n (keep (is_about id) (reverse b.history))) l)
