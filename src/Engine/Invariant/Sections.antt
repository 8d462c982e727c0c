-- ===== src/Engine/Invariant/Sections.antt =====
-- Every section that changes the records keeps the bookkeeping, in whatever order the threads run
-- them.

use testhub.Engine.Finish.{begin, finish, load_history}
use testhub.Base.{ℕ, ◌≡◌, Bool, false, List, Text, has}
use testhub.Model.{TestStatus, TestResult, Event}
use testhub.Engine.{TestRecord, Engine}
use testhub.Engine.History.{remove, clear_history, trim_history}
use testhub.Engine.Submit.{submit_insert}
use testhub.Engine.Cancel.{cancel, mark_stopped, mark_error, copy_status}

-- One section, or one call that is made of sections, by any thread. An insertion takes an id that
-- has no record.
pub data Section : Engine → Engine → Type 0 where
  inserts :
      (e : Engine) (id : Text) (r : TestRecord)
      → has id e.records ≡ false
      → Section e (submit_insert e id r)
  trims : (e : Engine) → Section e (trim_history e)
  removes : (e : Engine) (id : Text) → Section e (remove e id).0
  clears : (e : Engine) → Section e (clear_history e).0
  cancels : (e : Engine) (id : Text) (w : Bool) (now : ℕ) → Section e (cancel e id w now).0
  stops : (e : Engine) (id : Text) (now : ℕ) → Section e (mark_stopped e id now)
  fails : (e : Engine) (id what : Text) (now : ℕ) → Section e (mark_error e id what now)
  reports : (e : Engine) (id : Text) (snap : TestStatus) → Section e (copy_status e id snap)
  begins : (e : Engine) (id : Text) → Section e (begin e id).0
  finishes :
      (e : Engine) (id : Text) (s : TestStatus) (r : TestResult) (w : Bool) (event : Event)
      → Section e (finish e id s r w event)
  loads :
      (e : Engine) (loaded : Bool) (found : List TestRecord)
      → Section e (load_history e loaded found).0

pub data Reach (e : Engine) : Engine → Type 0 where
  here : Reach e e
  next : {f g : Engine} → Reach e f → Section f g → Reach e g
