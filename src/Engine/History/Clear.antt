-- ===== src/Engine/History/Clear.antt =====
-- What `remove` and `clearHistory` take away: finished tests, and nothing else.
use mathlib.Core.List.{append-nil}
use mathlib.Core.Path.{subst}
use testhub.Base.{
  ◌+◌, ◌≡◌, refl, sym, ap, ◌∙◌, arith, inl, inr, Bool, true, false, not, ◌&&◌, List, [], ◌∷◌, ◌++◌,
  none, some, Option-cases, ◌↔◌, ◌≢◌, length, length-append, if◌then◌else◌, All, All-mono, keep, keep-cong, count, count-cong,
  Bool-cases, Text, text_eq, text_eq_iff, text_eq_comm, mem_text, IsDistinct, Map, find, erase,
  find-erase,
}
use testhub.Model.{
  TestState, queued, running, passed, failed, skipped, cancelled, test_error, is_terminal_state,
}
use testhub.Engine.{TestRecord, Engine, is_finished}
use testhub.Engine.History.{Held, held, put_held, remove, clear_loop, clear_history}
use testhub.Engine.History.Trim.{store_remove-held, store_remove_all-held}

mem_text-keep :
    (x id : Text) (ids : List Text)
    → mem_text x (keep (λ y. not (text_eq y id)) ids) ≡ (not (text_eq id x) && mem_text x ids)
mem_text-keep x id [] = ground arith
mem_text-keep x id (y ∷ ids) =
    ground (arith, mem_text-keep x id ids, text_eq_iff y id, text_eq_iff y x, text_eq_iff id x)

-- What the record lock protects, after `id` is taken out.
pub record Without (id : Text) (g h : Held) : Type 0 where
  pub records : (x : Text) → find x h.records ≡ (if text_eq id x then none else find x g.records)
  pub order : h.order ≡ keep (λ y. not (text_eq y id)) g.order
  pub places : (x : Text) → mem_text x h.order ≡ (not (text_eq id x) && mem_text x g.order)
  pub flags :
      (x : Text) → find x h.cancel_flags ≡ (if text_eq id x then none else find x g.cancel_flags)

-- `remove` says whether the test is finished. It takes a finished test out of the records, the
-- order and the flags, and leaves the others; a test that is not finished, or not known, stays.
pub remove-Without :
    (e : Engine) (id : Text)
    → ((remove e id).1 ≡ is_finished e.records id)
      × (is_finished e.records id ≡ true → Without id (held e) (held (remove e id).0))
      × (is_finished e.records id ≡ false → (remove e id).0 ≡ e)
unfolding remove
remove-Without e id = elim (Bool-cases (is_finished e.records id)) [
  | inr no_end ↦ rw no_end (refl, λ h. cc, λ _. refl)
  | inl done ↦ rw done (
    refl,
    λ _. subst (Without id (held e)) (sym (store_remove-held _ id)) (record {
      records = λ x. find-erase x id e.records;
      order = refl;
      places = λ x. mem_text-keep x id e.order;
      flags = λ x. find-erase x id e.cancel_flags;
    }),
    λ h. cc,
  )
]

abbrev pub is_kept : Map TestRecord → Text → Bool
is_kept records x = not (is_finished records x)

is_finished-find :
    (r s : Map TestRecord) (id : Text) → find id s ≡ find id r → is_finished s id ≡ is_finished r id
unfolding is_finished
is_finished-find r s id e = rw (e, is_finished) refl

is_finished-erase :
    (id x : Text) (records : Map TestRecord)
    → text_eq id x ≡ false
    → is_finished (erase id records) x ≡ is_finished records x
is_finished-erase id x records h =
    is_finished-find records (erase id records) x (find-erase x id records ∙ rw h)

All-others :
    (id : Text) (ids : List Text) → mem_text id ids ≡ false → All (λ x. text_eq id x ≡ false) ids
All-others id [] h = tt
All-others id (x ∷ ids) h = (ground (arith, text_eq_comm id x), All-others id ids (ground arith))

-- The finished tests go, the others stay in their order, and the number is that of the finished.
pub record Cleared (g : Held) (ids removed : List Text) (r : Held × List Text) : Type 0 where
  pub order : r.0.order ≡ keep (is_kept g.records) ids ++ g.order
  pub number : length r.1 ≡ length removed + count (is_finished g.records) ids
  pub records :
      (x : Text)
      → find x r.0.records
        ≡ (if mem_text x ids && is_finished g.records x then none else find x g.records)
  pub flags :
      (x : Text)
      → find x r.0.cancel_flags
        ≡ (if mem_text x ids && is_finished g.records x then none else find x g.cancel_flags)

clear_loop-Cleared :
    (h : Held) (ids removed : List Text)
    → IsDistinct ids
    → Cleared h ids removed (clear_loop h ids removed)
unfolding clear_loop
clear_loop-Cleared h [] removed d = record {
  order = refl;
  number = omega arith;
  records = λ x. refl;
  flags = λ x. refl;
}
clear_loop-Cleared h (id ∷ ids) removed d = elim (Bool-cases (is_finished h.records id)) [
  | inl done ↦
      let g = record h { records = erase id h.records; cancel_flags = erase id h.cancel_flags } in
      let c = clear_loop-Cleared g ids (removed ++ (id ∷ [])) d.1 in
      let same =
        All-mono _ (λ x. is_finished g.records x ≡ is_finished h.records x) ids
          (λ x p. is_finished-erase id x h.records p) (All-others id ids d.0) in
      rw done (record {
        order = rw done (
            c.order
            ∙ ap (λ z. z ++ h.order) (keep-cong _ _ ids (All-mono _ _ ids (λ x p. ap not p) same)));
        number =
            rw done
              (omega (arith, c.number, length-append removed (id ∷ []), count-cong _ _ ids same));
        records = λ x. ground (
          arith,
          c.records x,
          find-erase x id h.records,
          is_finished-erase id x h.records,
          text_eq_iff id x,
        );
        flags = λ x. ground (
          arith,
          c.flags x,
          find-erase x id h.cancel_flags,
          is_finished-erase id x h.records,
          text_eq_iff id x,
        );
      })
  | inr going ↦
      let c = clear_loop-Cleared h ids removed d.1 in
      rw going (record {
        order = rw going (ap (◌∷◌ id) c.order);
        number = rw going (omega (arith, c.number));
        records = λ x. ground (arith, c.records x, text_eq_iff id x);
        flags = λ x. ground (arith, c.flags x, text_eq_iff id x);
      })
]

pub clear_history_lem :
    (e : Engine)
    → IsDistinct e.order
    → ((clear_history e).1 ≡ count (is_finished e.records) e.order)
      × ((clear_history e).0.order ≡ keep (is_kept e.records) e.order)
      × ((x : Text)
          → find x (clear_history e).0.records
            ≡ (if mem_text x e.order && is_finished e.records x then none else find x e.records))
      × ((x : Text)
          → find x (clear_history e).0.cancel_flags ≡ (
              if mem_text x e.order && is_finished e.records x
              then none
              else find x e.cancel_flags))
unfolding clear_history
clear_history_lem e d =
    let start = record (held e) { order = [] } in
    let c = clear_loop-Cleared start e.order [] d in
    let h = (clear_loop start e.order []).0 in
    let removed = (clear_loop start e.order []).1 in
    let same = store_remove_all-held (put_held e h) removed in
    (
      omega (arith, c.number),
      ap (λ g. g.order) same ∙ c.order ∙ append-nil _,
      λ x. ap (λ (g : Held). find x g.records) same ∙ c.records x,
      λ x. ap (λ (g : Held). find x g.cancel_flags) same ∙ c.flags x,
    )

-- Neither waiting nor at work.
abbrev pub IsEnd : TestState → Type 0
IsEnd s = (s ≢ queued) × (s ≢ running)

-- The test has a record, and the record's state is an end.
abbrev pub IsOver : Map TestRecord → Text → Type 0
IsOver records x = (r : TestRecord) × (find x records ≡ some r) × IsEnd r.status.state

is_terminal_state-IsEnd : (s : TestState) → (is_terminal_state s ≡ true) ↔ IsEnd s
unfolding is_terminal_state
is_terminal_state-IsEnd queued = (λ h. cc, λ e. absurd (e.0 refl))
is_terminal_state-IsEnd running = (λ h. cc, λ e. absurd (e.1 refl))
is_terminal_state-IsEnd passed = (λ h. (λ e. cc, λ e. cc), λ e. refl)
is_terminal_state-IsEnd failed = (λ h. (λ e. cc, λ e. cc), λ e. refl)
is_terminal_state-IsEnd skipped = (λ h. (λ e. cc, λ e. cc), λ e. refl)
is_terminal_state-IsEnd cancelled = (λ h. (λ e. cc, λ e. cc), λ e. refl)
is_terminal_state-IsEnd test_error = (λ h. (λ e. cc, λ e. cc), λ e. refl)

is_finished-IsOver :
    (records : Map TestRecord) (x : Text) → (is_finished records x ≡ true) ↔ IsOver records x
unfolding is_finished
is_finished-IsOver records x = elim (Option-cases (find x records)) [
  | inl n ↦ (λ h. let h' = rw (n, is_finished) at h in cc, λ (r, there, end). cc)
  | inr (r, there) ↦ (
    λ h.
      let h' = rw (there, is_finished) at h in
      (r, there, (is_terminal_state-IsEnd r.status.state).0 h'),
    λ (q, that, end).
      rw (that, is_finished) ((is_terminal_state-IsEnd q.status.state).1 end),
  )
]

-- `clearHistory` takes away the tests of the order that have a record whose state is neither queued
-- nor running, with their flags, and reports how many they are; the others stay, in their order. The
-- order must hold no id twice.
pub clear_history-Cleared :
    (e : Engine)
    → IsDistinct e.order
    → (done : Text → Bool)
      × ((x : Text) → (done x ≡ true) ↔ IsOver e.records x)
      × ((clear_history e).1 ≡ count done e.order)
      × ((clear_history e).0.order ≡ keep (λ x. not (done x)) e.order)
      × ((x : Text)
          → find x (clear_history e).0.records
            ≡ (if mem_text x e.order && done x then none else find x e.records))
      × ((x : Text)
          → find x (clear_history e).0.cancel_flags
            ≡ (if mem_text x e.order && done x then none else find x e.cancel_flags))
clear_history-Cleared e d =
    let (number, order, records, flags) = clear_history_lem e d in
    (is_finished e.records, is_finished-IsOver e.records, number, order, records, flags)
