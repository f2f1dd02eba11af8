-- ===== src/Clamd/Framing.antt =====
-- The bytes that Clamd.Scan sends, and a reader of them.
use file_storage_bucket.Common.{
  ℕ, zero, suc, ◌+◌, ◌*◌, ◌<◌, ◌/◌, ◌%◌, false, Option, none, some, List, [], ◌∷◌, ◌++◌, length,
  take, nat_eq, ◌≡◌, refl, ◌∙◌, ap, arith, All, append_assoc, if◌then◌else◌,
}
use file_storage_bucket.Clamd.{big_endian}

-- the frames of the pieces, as the protocol of clamd has them
unfoldable pub frames : List (List ℕ) → List ℕ
frames [] = []
frames ([] ∷ pieces) = frames pieces
frames ((b ∷ bs) ∷ pieces) = (big_endian (length (b ∷ bs)) ++ (b ∷ bs)) ++ frames pieces

-- how often conn.Write is called for the frames of the pieces: a header and a body for each frame
unfoldable pub writes : List (List ℕ) → ℕ
writes [] = 0
writes ([] ∷ pieces) = writes pieces
writes ((b ∷ bs) ∷ pieces) = suc (suc (writes pieces))

unfoldable pub concat : List (List ℕ) → List ℕ
concat [] = []
concat (p ∷ pieces) = p ++ concat pieces

unfoldable pub drop : ℕ → List ℕ → List ℕ
drop zero xs = xs
drop (suc n) [] = []
drop (suc n) (x ∷ xs) = drop n xs

-- A reader of the protocol: chunks of a big-endian length and so many bytes, up to a length of 0.
-- Each chunk takes one unit of fuel.
unfoldable pub unframe : ℕ → List ℕ → Option (List ℕ)
unfolding drop
unframe zero bytes = none
unframe (suc fuel) (a ∷ b ∷ c ∷ d ∷ bytes) =
    let n = a * 16777216 + b * 65536 + c * 256 + d in
    let rest = unframe fuel (drop n bytes) in
    if nat_eq n 0
    then some []
    else elim rest [ none ↦ none | some more ↦ some (take n bytes ++ more) ]
unframe (suc fuel) _ = none

take-concat : (xs ys : List ℕ) → take (length xs) (xs ++ ys) ≡ xs
take-concat [] ys = refl
take-concat (x ∷ xs) ys = ap (λ zs. x ∷ zs) (take-concat xs ys)

drop-concat : (xs ys : List ℕ) → drop (length xs) (xs ++ ys) ≡ ys
unfolding drop
drop-concat [] ys = refl
drop-concat (x ∷ xs) ys = drop-concat xs ys

big_endian-value :
    (n : ℕ)
    → n < 4294967296
    → (n / 16777216 % 256) * 16777216 + (n / 65536 % 256) * 65536 + (n / 256 % 256) * 256 + n % 256
      ≡ n
big_endian-value n h = omega arith

unframe-step :
    (fuel : ℕ) (xs ys more : List ℕ)
    → length xs < 4294967296
    → nat_eq (length xs) 0 ≡ false
    → unframe fuel ys ≡ some more
    → unframe (suc fuel) ((big_endian (length xs) ++ xs) ++ ys) ≡ some (xs ++ more)
unfolding unframe big_endian
unframe-step fuel xs ys more small some_bytes h =
    let value = big_endian-value (length xs) small in
    rw (value, some_bytes, drop-concat xs ys, h, value, take-concat xs ys) refl

unframe-end : (fuel : ℕ) → unframe (suc fuel) (0 ∷ 0 ∷ 0 ∷ 0 ∷ []) ≡ some []
unfolding unframe
unframe-end fuel = refl

-- What is sent for the reads of an object, with the end mark, is read back as the concatenation of
-- the reads, with fuel for more chunks than there are reads, where each read is shorter than 2 ^ 32.
pub unframe-frames :
    (pieces : List (List ℕ)) (fuel : ℕ)
    → All (λ p. length p < 4294967296) pieces
    → length pieces < fuel
    → unframe fuel (frames pieces ++ (0 ∷ 0 ∷ 0 ∷ 0 ∷ [])) ≡ some (concat pieces)
unfolding frames concat
unframe-frames pieces zero small enough = absurd (omega arith)
unframe-frames [] (suc fuel) small enough = unframe-end fuel
unframe-frames ([] ∷ pieces) (suc fuel) (_, small) enough =
    unframe-frames pieces (suc fuel) small (omega arith)
unframe-frames ((b ∷ bs) ∷ pieces) (suc fuel) (here, small) enough =
    ap (unframe (suc fuel))
      (append_assoc (big_endian (length (b ∷ bs)) ++ (b ∷ bs)) (frames pieces) (0 ∷ 0 ∷ 0 ∷ 0 ∷ []))
    ∙ unframe-step fuel (b ∷ bs) (frames pieces ++ (0 ∷ 0 ∷ 0 ∷ 0 ∷ [])) (concat pieces) here
        (ground arith) (unframe-frames pieces fuel small (omega arith))
