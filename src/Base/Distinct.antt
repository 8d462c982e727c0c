-- ===== src/Base/Distinct.antt =====
-- Lists without repetition, and membership in the part that a test keeps.
use mathlib.Core.Path.{◌≡◌, refl, ◌∙◌}
use mathlib.Core.Bool.{Bool, true, false, ◌&&◌}
use mathlib.Core.List.{List, [], ◌∷◌, ◌++◌}
use native.Mathlib.Omega.{arith}
use testhub.Base.Lists.{keep}
use testhub.Base.Texts.{Text, text_eq_iff, mem_text, mem_text-append, IsDistinct}

pub mem_text-keep :
    (p : Text → Bool) (k : Text) (ks : List Text) → mem_text k (keep p ks) ≡ (p k && mem_text k ks)
mem_text-keep p k [] = ground arith
mem_text-keep p k (j ∷ ks) = ground (arith, mem_text-keep p k ks, text_eq_iff j k)

pub IsDistinct-keep : (p : Text → Bool) (ids : List Text) → IsDistinct ids → IsDistinct (keep p ids)
IsDistinct-keep p [] d = tt
IsDistinct-keep p (x ∷ ids) d =
    let fewer : mem_text x (keep p ids) ≡ false = mem_text-keep p x ids ∙ ground (arith, d.0) in
    ground (arith, fewer, IsDistinct-keep p ids d.1)

pub IsDistinct-append :
    (xs ys : List Text)
    → IsDistinct xs
    → IsDistinct ys
    → ((x : Text) → mem_text x xs ≡ true → mem_text x ys ≡ false)
    → IsDistinct (xs ++ ys)
IsDistinct-append [] ys d e apart = e
IsDistinct-append (x ∷ xs) ys d e apart = (
  mem_text-append x xs ys ∙ ground (arith, d.0, apart x, text_eq_iff x x),
  IsDistinct-append xs ys d.1 e (λ y m. apart y (ground arith)),
)

-- A text that is new goes to the end.
pub IsDistinct-concat :
    (id : Text) (ids : List Text)
    → mem_text id ids ≡ false
    → IsDistinct ids
    → IsDistinct (ids ++ (id ∷ []))
IsDistinct-concat id [] n d = (refl, tt)
IsDistinct-concat id (x ∷ ids) n d = (
  mem_text-append x ids (id ∷ []) ∙ ground (arith, d.0, text_eq_iff id x, text_eq_iff x id),
  IsDistinct-concat id ids (ground arith) d.1,
)
