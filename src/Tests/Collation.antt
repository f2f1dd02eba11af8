-- ===== src/Tests/Collation.antt =====
-- The order of texts by their code points, which meets what the pages ask of a collation.
use Prim.Native.String.{String, [], ◌∷◌}
use Prim.Native.Char.{code}
use text.Mathlib.TextEquality.{Char-path}
use file_storage_bucket.Common.{
  Bool, true, false, ltb, nat_eq, ◌≡◌, ◌≢◌, refl, ap, ◌∙◌, arith, if◌then◌else◌, Bool-cases, inl,
  inr,
}
use file_storage_bucket.Documents.Evidence.Order.{IsOrder}

unfoldable pub text_before : String → String → Bool
text_before s [] = false
text_before [] (d ∷ t) = true
text_before (c ∷ s) (d ∷ t) =
    let later = text_before s t in
    if ltb (code c) (code d) then true else if nat_eq (code c) (code d) then later else false

asymmetric : (a b : String) → text_before a b ≡ true → text_before b a ≡ false
unfolding text_before
asymmetric [] [] h = refl
asymmetric (c ∷ s) [] h = cc
asymmetric [] (d ∷ t) h = refl
asymmetric (c ∷ s) (d ∷ t) h = ground (arith, asymmetric s t)

transitive :
    (a b c : String) → text_before b a ≡ false → text_before c b ≡ false → text_before c a ≡ false
unfolding text_before
transitive [] [] [] h k = refl
transitive [] [] (e ∷ u) h k = refl
transitive [] (d ∷ t) [] h k = refl
transitive [] (d ∷ t) (e ∷ u) h k = refl
transitive (c ∷ s) [] v h k = cc
transitive (c ∷ s) (d ∷ t) [] h k = cc
transitive (c ∷ s) (d ∷ t) (e ∷ u) h k = ground (arith, transitive s t u)

total : (a b : String) → a ≢ b → text_before b a ≡ false → text_before a b ≡ true
unfolding text_before
total [] [] n h = absurd (n refl)
total [] (d ∷ t) n h = refl
total (c ∷ s) [] n h = cc
total (c ∷ s) (d ∷ t) n h = elim (Bool-cases (nat_eq (code c) (code d))) [
  | inl same ↦
      let is : c ≡ d = Char-path c d (ground arith) in
      let apart : s ≢ t = λ e. n (ap (λ x. x ∷ s) is ∙ ap (λ y. d ∷ y) e) in
      let before : text_before t s ≡ false = ground arith in
      let done = total s t apart before in ground arith
  | inr differ ↦ ground arith
]

least : (a : String) → text_before a "" ≡ false
unfolding text_before
least [] = refl
least (c ∷ s) = refl

pub text_before-IsOrder : IsOrder text_before
text_before-IsOrder = record {
  asymmetric = asymmetric;
  total = total;
  transitive = transitive;
  least = least;
}
