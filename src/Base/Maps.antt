-- ===== src/Base/Maps.antt =====
-- `std::map<std::string, V>`: an association list in key order, so that a walk over it visits
-- the entries as the map's iterator does.

use mathlib.Core.Path.{◌≡◌, refl}
use mathlib.Core.Bool.{Bool, true}
use mathlib.Core.List.{List, [], ◌∷◌}
use mathlib.Core.Option.{Option, none, some}
use native.Mathlib.Omega.{arith}
use testhub.Base.Tests.{if◌then◌else◌, is_some}
use testhub.Base.Texts.{Text, text_eq, text_lt, text_eq_iff, text_lt_connex}

module _ {ℓ} where
  abbrev pub Map : Type ℓ → Type ℓ
  Map V = List (Text × V)

module _ {ℓ} {V : Type ℓ} where
  unfoldable pub find : Text → Map V → Option V
  find k [] = none
  find k ((j, v) ∷ m) = if text_eq j k then some v else find k m

  -- `m[k] = v`.
  unfoldable pub insert : Text → V → Map V → Map V
  insert k v [] = (k, v) ∷ []
  insert k v ((j, w) ∷ m) =
      if text_eq j k
      then (k, v) ∷ m
      else if text_lt k j
      then (k, v) ∷ (j, w) ∷ m
      else (j, w) ∷ insert k v m

  -- `m.erase(k)`; a key occurs once in a map.
  unfoldable pub erase : Text → Map V → Map V
  erase k [] = []
  erase k ((j, w) ∷ m) = if text_eq j k then erase k m else (j, w) ∷ erase k m

  -- `m.count(k)`, which is 0 or 1.
  abbrev pub has : Text → Map V → Bool
  has k m = is_some (find k m)

  pub find-insert :
      (j k : Text) (v : V) (m : Map V)
      → find j (insert k v m) ≡ (if text_eq k j then some v else find j m)
  unfolding find insert
  find-insert j k v [] = refl
  find-insert j k v ((i, w) ∷ m) =
      ground (arith, text_eq_iff k j, text_eq_iff i k, text_eq_iff i j, find-insert j k v m)

  pub find-erase :
      (j k : Text) (m : Map V) → find j (erase k m) ≡ (if text_eq k j then none else find j m)
  unfolding find erase
  find-erase j k [] = ground arith
  find-erase j k ((i, w) ∷ m) =
      ground (arith, text_eq_iff k j, text_eq_iff i k, text_eq_iff i j, find-erase j k m)

  -- The keys in strictly rising order, all above `k`.
  abbrev pub Above : Text → Map V → Type 0
  Above k [] = Unit
  Above k ((j, w) ∷ m) = (text_lt k j ≡ true) × Above j m

  abbrev pub IsOrdered : Map V → Type 0
  IsOrdered [] = Unit
  IsOrdered ((j, w) ∷ m) = Above j m

  insert-Above :
      (i k : Text) (v : V) (m : Map V) → Above i m → text_lt i k ≡ true → Above i (insert k v m)
  unfolding insert
  insert-Above i k v [] h l = (l, tt)
  insert-Above i k v ((j, w) ∷ m) h l =
      ground (arith, text_eq_iff j k, text_lt_connex k j, insert-Above j k v m h.1, text_eq_iff k j)

  pub insert-IsOrdered : (k : Text) (v : V) (m : Map V) → IsOrdered m → IsOrdered (insert k v m)
  unfolding insert
  insert-IsOrdered k v [] h = tt
  insert-IsOrdered k v ((j, w) ∷ m) h =
      ground (arith, text_eq_iff j k, text_eq_iff k j, text_lt_connex k j, insert-Above j k v m h)
