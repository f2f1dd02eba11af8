-- ===== src/Documents/Phases.antt =====
-- An abstract machine for one document: the phase that it is in, and how many scans were begun. The
-- statements of the service and of the scanner are matched with its steps.
pub mod Refined
use file_storage_bucket.Common.{ℕ, suc, ◌<◌, List, [], ◌∷◌, All}
use file_storage_bucket.Documents.Types.{
  Status, pending_upload, quarantined, available, rejected, ScanStatus, pending, scanning, failed,
}
use file_storage_bucket.Documents.Tables.{Row}

pub data Phase : Type 0 where
  awaiting queued held retrying released refused outside : Phase

-- a document that a scan may still conclude
pub data IsOpen : Phase → Type 0 where
  queued_open : IsOpen queued
  held_open : IsOpen held
  retrying_open : IsOpen retrying

pub record Progress : Type 0 where
  pub phase : Phase
  pub scans : ℕ

-- one step; `scanned_clean` and the two after it conclude a scan
pub data Step : Progress → Progress → Type 0 where
  arrived : Step (record { phase = awaiting; scans = 0 }) (record { phase = queued; scans = 0 })
  taken :
      {p : Phase} {n : ℕ}
      → IsOpen p
      → n < 5
      → Step (record { phase = p; scans = n }) (record { phase = held; scans = suc n })
  scanned_clean :
      {p : Phase} {n : ℕ}
      → IsOpen p
      → Step (record { phase = p; scans = n }) (record { phase = released; scans = n })
  scanned_infected :
      {p : Phase} {n : ℕ}
      → IsOpen p
      → Step (record { phase = p; scans = n }) (record { phase = refused; scans = n })
  scan_failed :
      {p : Phase} {n : ℕ}
      → IsOpen p
      → Step (record { phase = p; scans = n }) (record { phase = retrying; scans = n })

pub data Reaches (a : Progress) : Progress → Type 0 where
  stays : Reaches a a
  then_step : {b c : Progress} → Reaches a b → Step b c → Reaches a c

pub Reaches-trans : {a b c : Progress} → Reaches a b → Reaches b c → Reaches a c
Reaches-trans h stays = h
Reaches-trans h (then_step k step) = then_step (Reaches-trans h k) step

unfoldable pub phase_of : Status → ScanStatus → Phase
phase_of pending_upload scan = awaiting
phase_of quarantined pending = queued
phase_of quarantined scanning = held
phase_of quarantined failed = retrying
phase_of available scan = released
phase_of rejected scan = refused
phase_of _ _ = outside

-- what the machine sees of a row
unfoldable pub progress : Row → Progress
unfolding phase_of
progress r = record { phase = phase_of r.status r.scan_status; scans = r.scan_attempts }

abbrev pub initial : Progress
initial = record { phase = awaiting; scans = 0 }

-- every document moved by steps of the machine, and those that were added since from its start
unfoldable pub Refines : List Row → List Row → Type 0
unfolding progress
Refines [] added = All (λ r. Reaches initial (progress r)) added
Refines (r ∷ rs) [] = ⊥
Refines (r ∷ rs) (r' ∷ rs') = Reaches (progress r) (progress r') × Refines rs rs'
