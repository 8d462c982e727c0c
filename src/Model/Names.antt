-- ===== src/Model/Names.antt =====
-- The names of states and priorities are read back as they are written.
use testhub.Base.{◌≡◌, refl, true, text_eq, arith}
use testhub.Model.{
  TestState, queued, Priority, low, test_state_to_string, string_to_test_state, priority_to_string,
  string_to_priority, state_eq,
}
use testhub.Base.{◌↔◌}

-- Reading the name of a state gives the state.
string_to_test_state-test_state_to_string :
    (s : TestState) → string_to_test_state (test_state_to_string s) ≡ s
unfolding string_to_test_state test_state_to_string text_eq
string_to_test_state-test_state_to_string queued = refl
string_to_test_state-test_state_to_string _ = refl

-- Reading the name of a priority gives the priority.
string_to_priority-priority_to_string :
    (p : Priority) → string_to_priority (priority_to_string p) ≡ p
unfolding string_to_priority priority_to_string text_eq
string_to_priority-priority_to_string low = refl
string_to_priority-priority_to_string _ = refl

pub state_eq_iff : (a b : TestState) → (state_eq a b ≡ true) ↔ (a ≡ b)
unfolding state_eq
state_eq_iff a b = ground arith
