-- ===== src/Text/Digest.antt =====
-- shaPattern: the texts that match it, character by character.
use Prim.Native.String.{String, [], ◌∷◌, count}
use file_storage_bucket.Common.{code, true, ◌≡◌, ◌≤◌, ◌⊎◌, arith}
use file_storage_bucket.Text.{is_hex_digit, all_hex, is_sha256}

-- the digits from 0 to 9 and from a to f
abbrev pub AreHexDigits : String → Type 0
AreHexDigits [] = Unit
AreHexDigits (c ∷ s) =
    (((48 ≤ code c) × (code c ≤ 57)) ⊎ ((97 ≤ code c) × (code c ≤ 102))) × AreHexDigits s

pub record IsDigest (s : String) : Type 0 where
  pub long : count s ≡ 64
  pub digits : AreHexDigits s

all_hex-AreHexDigits : (s : String) → all_hex s ≡ true → AreHexDigits s
unfolding all_hex is_hex_digit
all_hex-AreHexDigits [] h = tt
all_hex-AreHexDigits (c ∷ s) h = (ground arith, all_hex-AreHexDigits s (ground arith))

pub is_sha256-IsDigest : (s : String) → is_sha256 s ≡ true → IsDigest s
unfolding is_sha256
is_sha256-IsDigest s h = record {
  long = ground arith;
  digits = all_hex-AreHexDigits s (ground arith);
}
