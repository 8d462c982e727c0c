-- ===== src/Engine/History.antt =====
-- src/engine/execution_engine.cpp, trimHistory, remove and clearHistory: what leaves the history.
pub mod Trim
pub mod Clear
pub mod Active
use testhub.Base.{
  ℕ, zero, suc, ◌+◌, Bool, true, false, List, [], ◌∷◌, ◌++◌, Option, none, some, length, ltb,
  if◌then◌else◌, keep, not, Text, text_eq, Map, find, insert, erase,
}
use testhub.Model.{is_terminal_state}
use testhub.Engine.{TestRecord, Engine, is_finished, store_remove, store_remove_all}

-- The part of the state that the record lock protects.
pub record Held : Type 0 where
  pub records : Map TestRecord
  pub order : List Text
  pub cancel_flags : Map ℕ

abbrev pub held : Engine → Held
held e = record { records = e.records; order = e.order; cancel_flags = e.cancel_flags }

abbrev pub put_held : Engine → Held → Engine
put_held e h = record e { records = h.records; order = h.order; cancel_flags = h.cancel_flags }

-- An id that `trimHistory` takes out of the order: its record is gone or terminal.
unfoldable pub is_removable : Map TestRecord → Text → Bool
is_removable records id = elim (find id records) [
  | none ↦ true
  | some r ↦ is_terminal_state r.status.state
]

-- The `for` loop of `trimHistory`: the first such id, what stands before it and behind it.
unfoldable pub first_removable : Map TestRecord → List Text → Option (Text × List Text)
first_removable records [] = none
first_removable records (id ∷ ids) =
    if is_removable records id then some (id, ids) else elim (first_removable records ids) [
      | none ↦ none
      | some (found, rest) ↦ some (found, id ∷ rest)
    ]

-- One round of the `while` loop that removes something. The list grows by the ids whose files are
-- to be removed: those that had a record.
unfoldable pub drop_entry : Held → Text → List Text → Held
drop_entry h id order = record {
  records = erase id h.records;
  order = order;
  cancel_flags = elim (find id h.records) [
    | none ↦ h.cancel_flags
    | some r ↦ erase id h.cancel_flags
  ];
}

abbrev pub with_record : Held → Text → List Text → List Text
with_record h id ids = elim (find id h.records) [ none ↦ ids | some r ↦ ids ++ (id ∷ []) ]

-- The `while` loop; the fuel is the length of the order.
unfoldable pub trim_loop : ℕ → ℕ → Held → List Text → Held × List Text
trim_loop zero limit h removed = (h, removed)
trim_loop (suc fuel) limit h removed = elim (ltb limit (length h.order)) [
  | false ↦ (h, removed)
  | true ↦ elim (first_removable h.records h.order) [
    | none ↦ (h, removed)
    | some (id, order) ↦ trim_loop fuel limit (drop_entry h id order) (with_record h id removed)
  ]
]

unfoldable pub trim_history : Engine → Engine
trim_history e =
    let (h, removed) = trim_loop (length e.order) e.history_limit (held e) [] in
    store_remove_all (put_held e h) removed

-- `remove`: the record, the order and the flag in one section, then the file.
unfoldable pub remove : Engine → Text → Engine × Bool
remove e id =
    if is_finished e.records id
    then (
      store_remove
          (record e {
            records = erase id e.records;
            order = keep (λ x. not (text_eq x id)) e.order;
            cancel_flags = erase id e.cancel_flags;
          })
          id,
      true,
    )
    else (e, false)

-- The loop of `clearHistory` over the order.
unfoldable pub clear_loop : Held → List Text → List Text → Held × List Text
clear_loop h [] removed = (h, removed)
clear_loop h (id ∷ ids) removed =
    if is_finished h.records id
    then clear_loop
        (record h { records = erase id h.records; cancel_flags = erase id h.cancel_flags }) ids
        (removed ++ (id ∷ []))
    else (let (h', removed') = clear_loop h ids removed in
        (record h' { order = id ∷ h'.order }, removed'))

unfoldable pub clear_history : Engine → Engine × ℕ
clear_history e =
    let (h, removed) = clear_loop (record (held e) { order = [] }) e.order [] in
    (store_remove_all (put_held e h) removed, length removed)
