-- ===== src/Text/Laws.antt =====
-- The text operations at work, and the laws that the service's checks rest on.
use file_storage_bucket.Common.{◌≡◌, ◌≢◌, refl, String, List, arith, String_discrete, ne_of_differ}
use file_storage_bucket.Text.{CaseTables, to_upper, trim_space, base, hex_encode}

abbrev plain : CaseTables
plain = record { upper = λ c. c; lower = λ c. c }

trim_space_test : trim_space " \t a b\n" ≡ "a b"
unfolding trim_space
trim_space_test = refl

to_upper_test : to_upper plain "party_9é" ≡ "PARTY_9é"
unfolding to_upper
to_upper_test = refl

base_tests : (base "../a//b.pdf/" ≡ "b.pdf") × (base "" ≡ ".") × (base "//" ≡ "/")
unfolding base String_discrete
base_tests = (refl, refl, refl)

hex_test : hex_encode (List.◌∷◌ 255 (List.◌∷◌ 10 List.[])) ≡ "ff0a"
unfolding hex_encode
hex_test = refl

-- A base name is never empty.
pub base-ne-empty : (path : String) → base path ≢ ""
unfolding base
base-ne-empty path = ground (arith, ne_of_differ "." "" refl, ne_of_differ "/" "" refl)
