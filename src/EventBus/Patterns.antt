-- ===== src/EventBus/Patterns.antt =====
-- Which events a subscription gets.
use mathlib.Core.Path.{subst}
use mathlib.Core.List.{append_assoc}
use testhub.Base.{
  ℕ, ◌-◌, ◌≡◌, refl, sym, ap, ◌∙◌, ◌↔◌, ◌⊎◌, arith, inl, inr, true, false, [], ◌∷◌, ◌++◌, Text,
  codes, text_eq, text_eq_iff, length, drop, take, take-append-drop, Bool-cases, length-append, ltb,
  text_eq_refl, drop-append_self,
}
use testhub.StringUtil.{starts_with, ends_with}
use testhub.EventBus.{drop_last, matches}

starts_with-append : (p r : Text) → starts_with (p ++ r) p ≡ true
unfolding starts_with
starts_with-append [] r = refl
starts_with-append (c ∷ p) r = ground (arith, starts_with-append p r)

starts_with-rest : (s p : Text) → starts_with s p ≡ true → s ≡ p ++ drop (length p) s
unfolding starts_with
starts_with-rest s [] h = refl
starts_with-rest [] (c ∷ p) h = cc
starts_with-rest (d ∷ s) (c ∷ p) h =
    let same : d ≡ c = ground arith in let rest = starts_with-rest s p (ground arith) in cc

ends_with-split :
    (p : Text) → ends_with p (codes ".*") ≡ true → p ≡ take (length p - 2) p ++ codes ".*"
unfolding ends_with
ends_with-split p h =
    let tail : text_eq (drop (length p - 2) p) (codes ".*") ≡ true = ground arith in
    sym (take-append-drop (length p - 2) p)
    ∙ ap (λ l. take (length p - 2) p ++ l)
        ((text_eq_iff (drop (length p - 2) p) (codes ".*")).0 tail)

ends_with-append : (q : Text) → ends_with (q ++ codes ".*") (codes ".*") ≡ true
unfolding ends_with
ends_with-append q =
    let n : length (q ++ codes ".*") - 2 ≡ length q = omega (arith, length-append q (codes ".*")) in
    let long : ltb (length (q ++ codes ".*")) 2 ≡ false =
      ground (arith, length-append q (codes ".*")) in
    let tail : drop (length (q ++ codes ".*") - 2) (q ++ codes ".*") ≡ codes ".*" =
      ap (λ k. drop k (q ++ codes ".*")) n ∙ drop-append_self q (codes ".*") in
    rw (long, tail) (text_eq_refl (codes ".*"))

drop_last-append : (q : Text) (c : ℕ) → drop_last (q ++ (c ∷ [])) ≡ q
unfolding drop_last
drop_last-append [] c = refl
drop_last-append (d ∷ []) c = refl
drop_last-append (d ∷ e ∷ q) c = ap (λ l. d ∷ l) (drop_last-append (e ∷ q) c)

-- What a subscription to `pattern` gets.
abbrev pub IsHeard : Text → Text → Type 0
IsHeard pattern type =
    (pattern ≡ codes "*")
    ⊎ ((pattern ≡ type)
        ⊎ ((q : Text) × (r : Text) × (pattern ≡ q ++ codes ".*") × (type ≡ q ++ (b'.' ∷ r))))

drop_last-pattern : (q : Text) → drop_last (q ++ codes ".*") ≡ q ++ codes "."
drop_last-pattern q =
    ap drop_last (sym (append_assoc q (codes ".") (codes "*")))
    ∙ drop_last-append (q ++ codes ".") b'*'

starts_with-pattern :
    (q type : Text)
    → starts_with type (q ++ codes ".") ≡ true
    → (r : Text) × (type ≡ q ++ (b'.' ∷ r))
starts_with-pattern q type h =
    let r = drop (length (q ++ codes ".")) type in
    (r, starts_with-rest type (q ++ codes ".") h ∙ append_assoc q (codes ".") r)

matches-IsHeard : (pattern type : Text) → matches pattern type ≡ true → IsHeard pattern type
unfolding matches
matches-IsHeard pattern type h = elim (Bool-cases (text_eq pattern (codes "*"))) [
  | inl e ↦ inl ((text_eq_iff pattern (codes "*")).0 e)
  | inr a ↦ elim (Bool-cases (text_eq pattern type)) [
    | inl e ↦ inr (inl ((text_eq_iff pattern type).0 e))
    | inr b ↦
        let dotted : ends_with pattern (codes ".*") ≡ true = ground arith in
        let begins : starts_with type (drop_last pattern) ≡ true = ground arith in
        let q = take (length pattern - 2) pattern in
        let split = ends_with-split pattern dotted in
        let front = ap drop_last split ∙ drop_last-pattern q in
        let (r, rest) =
          starts_with-pattern q type (subst (λ f. starts_with type f ≡ true) front begins) in
        inr (inr (q, r, split, rest))
  ]
]

IsHeard-matches : (pattern type : Text) → IsHeard pattern type → matches pattern type ≡ true
unfolding matches
IsHeard-matches pattern type (inl e) = ground (arith, text_eq_iff pattern (codes "*"))
IsHeard-matches pattern type (inr (inl e)) = ground (arith, text_eq_iff pattern type)
IsHeard-matches pattern type (inr (inr (q, r, p, t))) =
    let dotted = subst (λ l. ends_with l (codes ".*") ≡ true) (sym p) (ends_with-append q) in
    let front : drop_last pattern ≡ q ++ codes "." = ap drop_last p ∙ drop_last-pattern q in
    let split : type ≡ (q ++ codes ".") ++ r = t ∙ sym (append_assoc q (codes ".") r) in
    let begins =
      subst (λ l. starts_with l (drop_last pattern) ≡ true) (sym split)
        (subst (λ f. starts_with ((q ++ codes ".") ++ r) f ≡ true) (sym front)
          (starts_with-append (q ++ codes ".") r)) in
    ground arith

-- A subscription gets the events of its own type; `*` gets all events, and a prefix that ends in a
-- dot and `*` gets those whose type goes on behind the dot. It gets no others.
pub matches_iff : (pattern type : Text) → (matches pattern type ≡ true) ↔ IsHeard pattern type
matches_iff pattern type = (matches-IsHeard pattern type, IsHeard-matches pattern type)
