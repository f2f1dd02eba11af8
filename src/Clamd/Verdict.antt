-- ===== src/Clamd/Verdict.antt =====
-- Clamd.Scan: what an outcome says of the object and of the answer.
use file_storage_bucket.Common.{
  ℕ, zero, suc, nat_eq, ◌+◌, ◌<◌, ◌≤◌, All, ap, some, String, Bool, true, false, List, [], ◌∷◌,
  ◌++◌, length, ◌≡◌, ◌≢◌, inl, inr, refl, sym, ◌∙◌, arith, Bool-cases, append_assoc, append-nil,
  subst, ne_of_differ,
}
use file_storage_bucket.Text.{trim_space, trim_suffix, has_suffix, contains}
use file_storage_bucket.Documents.Types.{Result, ok, err}
use file_storage_bucket.Scanner.{ScanReport}
use file_storage_bucket.Clamd.{
  Connection, Content, Streaming, stopped, streamed, stream, big_endian, instream, classify,
  read_answer, finish_stream, scan,
}
use file_storage_bucket.Clamd.Framing.{frames, writes, concat, unframe, unframe-frames}

stream-eq-streamed :
    (c : Connection) (broken : Bool) (pieces : List (List ℕ)) (sent sent' : List ℕ) (n n' : ℕ)
    → stream c broken pieces sent n ≡ streamed sent' n'
    → (broken ≡ false)
      × (sent' ≡ sent ++ frames pieces)
      × (n' ≡ n + writes pieces)
      × ((i : ℕ) → n ≤ i → i < n' → c.write_fails i ≡ false)
unfolding stream frames writes
stream-eq-streamed c broken [] sent sent' n n' h = (
  ground arith,
  ground (arith, append-nil sent),
  ground arith,
  λ i low high. absurd (ground arith),
)
stream-eq-streamed c broken ([] ∷ pieces) sent sent' n n' h =
    stream-eq-streamed c broken pieces sent sent' n n' h
stream-eq-streamed c broken ((b ∷ bs) ∷ pieces) sent sent' n n' h =
    let frame = big_endian (length (b ∷ bs)) ++ (b ∷ bs) in
    let (whole, same, count, later) =
      stream-eq-streamed c broken pieces (sent ++ frame) sent' (suc (suc n)) n' (ground arith) in
    let header : c.write_fails n ≡ false = ground arith in
    let payload : c.write_fails (suc n) ≡ false = ground arith in
    (
      whole,
      same ∙ append_assoc sent frame (frames pieces),
      omega arith,
      λ i low high. elim (Bool-cases (nat_eq n i)) [
        | inl first ↦ subst (λ k. c.write_fails k ≡ false) (ground arith) header
        | inr above ↦ elim (Bool-cases (nat_eq (suc n) i)) [
          | inl second ↦ subst (λ k. c.write_fails k ≡ false) (ground arith) payload
          | inr beyond ↦ later i (ground arith) high
        ]
      ],
    )

clean_not_failed : ◌≢◌ {A = String} "clean" "failed"
clean_not_failed = ne_of_differ _ _ refl

infected_not_failed : ◌≢◌ {A = String} "infected" "failed"
infected_not_failed = ne_of_differ _ _ refl

clean_not_infected : ◌≢◌ {A = String} "clean" "infected"
clean_not_infected = ne_of_differ _ _ refl

-- clamd answered to the whole object, and the verdict follows from its answer
pub record IsJudged (c : Connection) (content : Content) (outcome : String) : Type 0 where
  pub dialled : c.dials ≡ true
  pub written : (i : ℕ) → i ≤ writes content.pieces + 1 → c.write_fails i ≡ false
  pub whole : content.broken ≡ false
  pub response : String
  pub answered :
      c.answer ((instream ++ frames content.pieces) ++ (0 ∷ 0 ∷ 0 ∷ 0 ∷ [])) ≡ ok response
  pub clean : outcome ≡ "clean" → has_suffix (trim_space (trim_suffix response "\0")) "OK" ≡ true
  pub infected :
      outcome ≡ "infected"
      → (has_suffix (trim_space (trim_suffix response "\0")) "OK" ≡ false)
        × (contains (trim_space (trim_suffix response "\0")) " FOUND" ≡ true)

classify-verdict :
    (response : String)
    → ((classify response).outcome ≡ "clean" → has_suffix response "OK" ≡ true)
      × ((classify response).outcome ≡ "infected"
          → (has_suffix response "OK" ≡ false) × (contains response " FOUND" ≡ true))
unfolding classify
classify-verdict response = elim (Bool-cases (has_suffix response "OK")) [
  | inl good ↦ (λ _. good, λ e. absurd (ground (arith, clean_not_infected)))
  | inr bad ↦ elim (Bool-cases (contains response " FOUND")) [
    | inl found ↦ (λ e. absurd (ground (arith, clean_not_infected)), λ _. (bad, found))
    | inr missing ↦ (
      λ e. absurd (ground (arith, clean_not_failed)),
      λ e. absurd (ground (arith, infected_not_failed)),
    )
  ]
]

module _ (c : Connection) (content : Content) where
  read_answer-IsJudged :
      (r : Result String)
      → c.answer ((instream ++ frames content.pieces) ++ (0 ∷ 0 ∷ 0 ∷ 0 ∷ [])) ≡ r
      → c.dials ≡ true
      → ((i : ℕ) → i ≤ writes content.pieces + 1 → c.write_fails i ≡ false)
      → content.broken ≡ false
      → (read_answer r).outcome ≢ "failed"
      → IsJudged c content (read_answer r).outcome
  unfolding read_answer
  read_answer-IsJudged (err e) at dialled written whole n = absurd (n refl)
  read_answer-IsJudged (ok response) at dialled written whole n =
      let (clean, infected) = classify-verdict (trim_space (trim_suffix response "\0")) in
      record {
        dialled = dialled;
        written = written;
        whole = whole;
        response = response;
        answered = at;
        clean = clean;
        infected = infected;
      }

  all_written :
      (k : ℕ)
      → k ≡ 1 + writes content.pieces
      → c.write_fails 0 ≡ false
      → ((i : ℕ) → 1 ≤ i → i < k → c.write_fails i ≡ false)
      → c.write_fails k ≡ false
      → (i : ℕ) → i ≤ writes content.pieces + 1
      → c.write_fails i ≡ false
  all_written k count command middle last zero small = command
  all_written k count command middle last (suc i) small = elim (Bool-cases (nat_eq k (suc i))) [
    | inl e ↦ subst (λ j. c.write_fails j ≡ false) (ground arith) last
    | inr below ↦ middle (suc i) (omega arith) (ground arith)
  ]

  finish_stream-IsJudged :
      (r : Streaming)
      → stream c content.broken content.pieces instream 1 ≡ r
      → c.dials ≡ true
      → c.write_fails 0 ≡ false
      → (finish_stream c r).outcome ≢ "failed"
      → IsJudged c content (finish_stream c r).outcome
  unfolding finish_stream
  finish_stream-IsJudged (stopped reason) at dialled command n = absurd (n refl)
  finish_stream-IsJudged (streamed sent k) at dialled command n =
      elim (Bool-cases (c.write_fails k)) [
        | inl fails ↦ absurd (n (ground arith))
        | inr works ↦
            let (whole, same, count, frames_written) =
              stream-eq-streamed c content.broken content.pieces instream sent 1 k at in
            let written = all_written k count command frames_written works in
            rw (works, same)
              (read_answer-IsJudged _ refl dialled written whole (rw (works, same) at n))
      ]

  -- An outcome other than failed is the verdict of clamd on the whole object: clamd was dialled, the
  -- object was read to its end, the write of the command, both writes of each frame and the write of
  -- the end mark succeeded, clamd answered to these bytes, and the outcome is clean only where the
  -- answer ends in OK, and infected only where it does not and contains FOUND.
  pub scan-IsJudged :
      (scan c content).outcome ≢ "failed" → IsJudged c content (scan c content).outcome
  unfolding scan
  scan-IsJudged n = elim (Bool-cases c.dials) [
    | inr refused ↦ absurd (n (ground arith))
    | inl dialled ↦ elim (Bool-cases (c.write_fails 0)) [
      | inl fails ↦ absurd (n (ground arith))
      | inr works ↦
          let done = stream c content.broken content.pieces instream 1 in
          let is : scan c content ≡ finish_stream c done = ground arith in
          subst (λ r. IsJudged c content (ScanReport.outcome r)) (sym is)
            (finish_stream-IsJudged done refl dialled works
              (subst (λ r. ScanReport.outcome r ≢ "failed") is n))
    ]
  ]

  -- Where a scan has an outcome other than failed and each read of the object is shorter than 2 ^ 32,
  -- clamd answered to the command and a body, which a reader of the protocol, with fuel for more
  -- chunks than there are reads, reads back as the whole object.
  pub scan-unframe :
      (fuel : ℕ)
      → All (λ p. length p < 4294967296) content.pieces
      → length content.pieces < fuel
      → (scan c content).outcome ≢ "failed"
      → (content.broken ≡ false)
        × ((response : String) × (body : List ℕ) × (c.answer (instream ++ body) ≡ ok response)
            × (unframe fuel body ≡ some (concat content.pieces)))
  scan-unframe fuel small enough n =
      let j = scan-IsJudged n in
      (
        j.whole,
        (
          j.response,
          frames content.pieces ++ (0 ∷ 0 ∷ 0 ∷ 0 ∷ []),
          ap c.answer (sym (append_assoc instream (frames content.pieces) (0 ∷ 0 ∷ 0 ∷ 0 ∷ [])))
              ∙ j.answered,
          unframe-frames content.pieces fuel small enough,
        ),
      )
