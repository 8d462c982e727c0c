-- ===== src/Engine/History/Active.antt =====
-- What `trimHistory` promises of the tests that are queued or running.
use testhub.Base.{
  ◌≤◌, ◌≡◌, refl, sym, ◌∙◌, ◌⊎◌, inl, inr, true, false, none, some, length, All, All-mono,
  Option-cases, Text, mem_text, Map, find,
}
use testhub.Model.{is_terminal_state}
use testhub.Engine.{TestRecord, Engine}
use testhub.Engine.History.{is_removable, trim_history}
use testhub.Engine.History.Trim.{trim_history-Keeps, trim_history-Trimmed}

-- The record of a test that is queued or running.
abbrev pub IsActive : Map TestRecord → Text → TestRecord → Type 0
IsActive records id r = (find id records ≡ some r) × (is_terminal_state r.status.state ≡ false)

IsActive-is_removable :
    (records : Map TestRecord) (id : Text) (r : TestRecord)
    → IsActive records id r
    → is_removable records id ≡ false
unfolding is_removable
IsActive-is_removable records id r (there, going) = rw (there, is_removable) going

find-is_removable :
    (records : Map TestRecord) (id : Text) → find id records ≡ none → is_removable records id ≡ true
unfolding is_removable
find-is_removable records id n = rw (n, is_removable) refl

find-is_terminal_state :
    (records : Map TestRecord) (id : Text) (r : TestRecord)
    → find id records ≡ some r
    → is_removable records id ≡ false
    → is_terminal_state r.status.state ≡ false
unfolding is_removable
find-is_terminal_state records id r e h = rw (e, is_removable) at h

is_removable-IsActive :
    (records : Map TestRecord) (id : Text)
    → is_removable records id ≡ false
    → (r : TestRecord) × IsActive records id r
is_removable-IsActive records id h = elim (Option-cases (find id records)) [
  | inl n ↦ absurd (let q : true ≡ false = sym (find-is_removable records id n) ∙ h in cc)
  | inr (r, e) ↦ (r, (e, find-is_terminal_state records id r e h))
]

-- `trimHistory` leaves the record of a test that is queued or running as it is, and its id in the
-- order.
pub trim_history-active :
    (e : Engine) (id : Text) (r : TestRecord)
    → IsActive e.records id r
    → (find id (trim_history e).records ≡ some r)
      × (mem_text id (trim_history e).order ≡ mem_text id e.order)
trim_history-active e id r active =
    let k = trim_history-Keeps e in
    let stays = IsActive-is_removable e.records id r active in
    (k.same_record id stays ∙ active.0, k.same_place id stays)

-- After `trimHistory` the history is within its limit, or every id left in the order belongs to a
-- test that is queued or running.
pub trim_history-limit :
    (e : Engine)
    → (length (trim_history e).order ≤ e.history_limit)
      ⊎ All (λ id. (r : TestRecord) × IsActive (trim_history e).records id r) (trim_history e).order
trim_history-limit e = elim (trim_history-Trimmed e) [
  | inl fits ↦ inl fits
  | inr stuck ↦ inr (
      All-mono _ _ (trim_history e).order
        (λ id h. is_removable-IsActive (trim_history e).records id h) stuck)
]
