-- ===== src/Clamd.antt =====
-- internal/malware/clamd.go: Clamd.Scan, which streams an object to clamd over TCP. The connection
-- is a parameter: which writes fail, and what is answered to the bytes that were written.
pub mod Framing
pub mod Verdict
use Prim.Native.String
use file_storage_bucket.Common.{
  ℕ, ◌+◌, suc, ◌/◌, ◌%◌, String, Bool, not, Option, none, some, List, [], ◌∷◌, ◌++◌, length,
  if◌then◌else◌,
}
use file_storage_bucket.Text.{trim_space, has_suffix, contains, trim_suffix}
use file_storage_bucket.Documents.Types.{Error, failure, Result, ok, err}
use file_storage_bucket.Scanner.{ScanReport}

-- net.Dialer and the connection: whether dialling succeeds, whether the n-th write fails, and the
-- text that ReadString(0) gives, or an error other than io.EOF
pub record Connection : Type 0 where
  pub dials : Bool
  pub write_fails : ℕ → Bool
  pub answer : List ℕ → Result String

-- the reads of the object: the pieces that Read fills the buffer of 32 KiB with, and whether they end
-- with an error other than io.EOF
pub record Content : Type 0 where
  pub pieces : List (List ℕ)
  pub broken : Bool

-- binary.BigEndian.PutUint32(size[:], uint32(n))
unfoldable pub big_endian : ℕ → List ℕ
big_endian n = n / 16777216 % 256 ∷ n / 65536 % 256 ∷ n / 256 % 256 ∷ n % 256 ∷ []

-- "zINSTREAM\x00"
abbrev pub instream : List ℕ
instream = 122 ∷ 73 ∷ 78 ∷ 83 ∷ 84 ∷ 82 ∷ 69 ∷ 65 ∷ 77 ∷ 0 ∷ []

-- what the loop has done: it failed with a reason, or wrote these bytes and made so many writes
pub data Streaming : Type 0 where
  stopped : String → Streaming
  streamed : List ℕ → ℕ → Streaming

-- The loop over the reads, after `n` writes. A read of no bytes writes nothing.
unfoldable pub stream : Connection → Bool → List (List ℕ) → List ℕ → ℕ → Streaming
unfolding big_endian
stream c broken [] sent n = if broken then stopped "object read failed" else streamed sent n
stream c broken ([] ∷ pieces) sent n = stream c broken pieces sent n
stream c broken ((b ∷ bs) ∷ pieces) sent n =
    let rest =
      stream c broken pieces (sent ++ (big_endian (length (b ∷ bs)) ++ (b ∷ bs))) (suc (suc n)) in
    if c.write_fails n
    then stopped "clamd stream failed"
    else if c.write_fails (suc n)
    then stopped "clamd stream failed"
    else rest

abbrev pub failed_scan : String → ScanReport
failed_scan reason = record { outcome = "failed"; reason = reason; error = some failure }

-- the switch on the response, its NUL and its spaces cut off
unfoldable pub classify : String → ScanReport
classify response =
    if has_suffix response "OK"
    then record { outcome = "clean"; reason = response; error = none }
    else if contains response " FOUND"
    then record { outcome = "infected"; reason = response; error = none }
    else failed_scan response

unfoldable pub read_answer : Result String → ScanReport
unfolding classify
read_answer (err e) = failed_scan "clamd response failed"
read_answer (ok response) = classify (trim_space (trim_suffix response "\0"))

-- the end of the stream and the answer
unfoldable pub finish_stream : Connection → Streaming → ScanReport
unfolding read_answer
finish_stream c (stopped reason) = failed_scan reason
finish_stream c (streamed sent n) =
    if c.write_fails n
    then failed_scan "clamd finalize failed"
    else read_answer (c.answer (sent ++ (0 ∷ 0 ∷ 0 ∷ 0 ∷ [])))

unfoldable pub scan : Connection → Content → ScanReport
unfolding stream finish_stream
scan c content =
    if not c.dials
    then failed_scan "clamd unavailable"
    else if c.write_fails 0
    then failed_scan "clamd command failed"
    else finish_stream c (stream c content.broken content.pieces instream 1)
