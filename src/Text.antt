-- ===== src/Text.antt =====
-- What the service uses of Go's packages strings, path/filepath, encoding/hex and regexp. A text is
-- a sequence of Unicode scalar values; its `len` counts the bytes of its UTF-8, as Go's does.
pub mod Laws
pub mod Digest
use Prim.Native.Nat.{ℕ, ◌/◌, ◌%◌}
use Prim.Native.String
use Prim.Native.String.{String, [], ◌∷◌, count}
use mathlib.Core.List
use mathlib.Core.List.{List}
use file_storage_bucket.Common.{
  Char, code, Option, none, some, Bool, true, false, not, ◌&&◌, ◌||◌, leb, nat_eq, ◌==◌,
  if◌then◌else◌,
}

-- Go's tables of upper and lower case for the characters from U+0080 on, which are data of its
-- package unicode.
pub record CaseTables : Type 0 where
  pub upper : Char → Char
  pub lower : Char → Char

abbrev lower_letters : String
lower_letters = "abcdefghijklmnopqrstuvwxyz"

abbrev upper_letters : String
upper_letters = "ABCDEFGHIJKLMNOPQRSTUVWXYZ"

-- the character of the second text where the first has `c`
translate : String → String → Char → Char
translate (a ∷ s) (b ∷ t) c = if nat_eq (code a) (code c) then b else translate s t c
translate _ _ c = c

to_upper_char : CaseTables → Char → Char
unfolding translate
to_upper_char t c = if leb (code c) 0x7f then translate lower_letters upper_letters c else t.upper c

to_lower_char : CaseTables → Char → Char
unfolding translate
to_lower_char t c = if leb (code c) 0x7f then translate upper_letters lower_letters c else t.lower c

-- strings.ToUpper
unfoldable pub to_upper : CaseTables → String → String
unfolding to_upper_char
to_upper t [] = []
to_upper t (c ∷ s) = to_upper_char t c ∷ to_upper t s

-- strings.ToLower
unfoldable pub to_lower : CaseTables → String → String
unfolding to_lower_char
to_lower t [] = []
to_lower t (c ∷ s) = to_lower_char t c ∷ to_lower t s

-- unicode.IsSpace
is_space : Char → Bool
is_space c =
    (leb 9 (code c) && leb (code c) 13)
    || nat_eq (code c) 0x20
    || nat_eq (code c) 0x85
    || nat_eq (code c) 0xa0
    || nat_eq (code c) 0x1680
    || (leb 0x2000 (code c) && leb (code c) 0x200a)
    || nat_eq (code c) 0x2028
    || nat_eq (code c) 0x2029
    || nat_eq (code c) 0x202f
    || nat_eq (code c) 0x205f
    || nat_eq (code c) 0x3000

abbrev drop_char : (Char → Bool) → Char → String → String
drop_char p c [] = if p c then [] else c ∷ []
drop_char p c (d ∷ s) = c ∷ d ∷ s

-- the text without the characters at its end that pass the test
trim_right_by : (Char → Bool) → String → String
trim_right_by p [] = []
trim_right_by p (c ∷ s) = drop_char p c (trim_right_by p s)

trim_left_by : (Char → Bool) → String → String
trim_left_by p [] = []
trim_left_by p (c ∷ s) = elim (p c) [ true ↦ trim_left_by p s | false ↦ c ∷ s ]

-- strings.TrimSpace
unfoldable pub trim_space : String → String
unfolding trim_left_by trim_right_by is_space
trim_space s = trim_right_by is_space (trim_left_by is_space s)

-- the words of `s`, after the characters `word` of a word that has begun
fields_after : String → String → List String
unfolding is_space
fields_after word [] = if word == "" then List.[] else List.◌∷◌ word List.[]
fields_after word (c ∷ s) = elim (is_space c) [
  | true ↦ let rest = fields_after "" s in if word == "" then rest else List.◌∷◌ word rest
  | false ↦ fields_after (String.◌++◌ word (c ∷ [])) s
]

-- strings.Fields
unfoldable pub fields : String → List String
unfolding fields_after
fields s = fields_after "" s

prepend : Char → Option (String × String) → Option (String × String)
prepend c none = none
prepend c (some (before, after)) = some (c ∷ before, after)

-- strings.Cut(s, " "): what stands before and after the first space, if there is one
unfoldable pub cut_space : String → Option (String × String)
unfolding prepend
cut_space [] = none
cut_space (c ∷ s) = if nat_eq (code c) 0x20 then some ("", s) else prepend c (cut_space s)

-- strings.EqualFold(s, "Bearer"): no character but an ASCII letter folds to a letter of that word
unfoldable pub is_bearer : String → Bool
unfolding to_lower
is_bearer s = to_lower (record { upper = λ c. c; lower = λ c. c }) s == "bearer"

abbrev is_slash : Char → Bool
is_slash c = nat_eq (code c) b'/'

-- what follows the last slash of `s`, or `found` where it has none
after_last_slash : String → String → String
after_last_slash found [] = found
after_last_slash found (c ∷ s) = after_last_slash (if is_slash c then s else found) s

-- filepath.Base, where the separator is a slash
unfoldable pub base : String → String
unfolding trim_right_by after_last_slash
base path =
    let stripped = trim_right_by is_slash path in
    let last = after_last_slash stripped stripped in
    if path == "" then "." else if last == "" then "/" else last

-- strings.TrimRight(s, "/")
unfoldable pub trim_right_slashes : String → String
unfolding trim_right_by
trim_right_slashes s = trim_right_by is_slash s

-- strings.HasPrefix(s, prefix)
unfoldable pub has_prefix : String → String → Bool
has_prefix s [] = true
has_prefix [] (c ∷ t) = false
has_prefix (d ∷ s) (c ∷ t) = nat_eq (code d) (code c) && has_prefix s t

-- strings.HasSuffix(s, suffix)
unfoldable pub has_suffix : String → String → Bool
has_suffix [] t = t == ""
has_suffix (c ∷ s) t = (c ∷ s) == t || has_suffix s t

-- strings.Contains(s, part)
unfoldable pub contains : String → String → Bool
unfolding has_prefix
contains [] t = t == ""
contains (c ∷ s) t = has_prefix (c ∷ s) t || contains s t

has_char : Char → String → Bool
has_char c [] = false
has_char c (d ∷ s) = nat_eq (code d) (code c) || has_char c s

-- strings.ContainsAny(s, chars)
unfoldable pub contains_any : String → String → Bool
unfolding has_char
contains_any [] chars = false
contains_any (c ∷ s) chars = has_char c chars || contains_any s chars

-- strings.TrimSuffix(s, suffix)
unfoldable pub trim_suffix : String → String → String
trim_suffix [] t = []
trim_suffix (c ∷ s) t = if (c ∷ s) == t then [] else c ∷ trim_suffix s t

is_hex_digit : Char → Bool
is_hex_digit c =
    (leb b'0' (code c) && leb (code c) b'9') || (leb b'a' (code c) && leb (code c) b'f')

all_hex : String → Bool
all_hex [] = true
all_hex (c ∷ s) = is_hex_digit c && all_hex s

-- shaPattern.MatchString: ^[0-9a-f]{64}$
unfoldable pub is_sha256 : String → Bool
unfolding all_hex is_hex_digit
is_sha256 s = nat_eq (count s) 64 && all_hex s

nth_char : String → ℕ → String
nth_char [] i = []
nth_char (c ∷ s) Prim.Native.Nat.zero = c ∷ []
nth_char (c ∷ s) (Prim.Native.Nat.suc i) = nth_char s i

hex_digit : ℕ → String
unfolding nth_char
hex_digit n = nth_char "0123456789abcdef" n

-- hex.EncodeToString, over bytes
unfoldable pub hex_encode : List ℕ → String
unfolding hex_digit
hex_encode List.[] = ""
hex_encode (List.◌∷◌ b bs) =
    String.◌++◌ (hex_digit (b / 16)) (String.◌++◌ (hex_digit (b % 16)) (hex_encode bs))
