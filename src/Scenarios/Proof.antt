-- ===== src/Scenarios/Proof.antt =====
-- Gates and their recorded setup.
use threadloop.Base.{Option, none, some, List, [], ◌∷◌, ◌≡◌, ◌↔◌, or_else}
use threadloop.Proof.{ProofEvidenceStatus, missing, stale, GateReceiptResult, ProofSetupStep}
use threadloop.Proof.Evidence.{aggregate_gate_status, gravest, aggregate_gate_status-gravest}
use threadloop.Proof.Setup.{
  RecordedSetupStep, recorded_setup_violation, IsAdmissible, recorded_setup_violation_iff,
}
use threadloop.Scenarios.Engine.{writer}

aggregate_gate_status-gravest_example :
    aggregate_gate_status (missing ∷ ProofEvidenceStatus.failed ∷ stale ∷ [])
    ≡ gravest (missing ∷ ProofEvidenceStatus.failed ∷ stale ∷ [])
aggregate_gate_status-gravest_example =
    aggregate_gate_status-gravest (missing ∷ ProofEvidenceStatus.failed ∷ stale ∷ [])

abbrev declared : Option (List ProofSetupStep)
declared = some (
    record {
      id = "install";
      command = "npm" ∷ "ci" ∷ [];
      working_directory = ".";
      timeout_ms = 600;
    }
    ∷ [])

-- The one step failed.
abbrev recorded : Option (List RecordedSetupStep)
recorded = some (
    record {
      id = "install";
      command = "npm" ∷ "ci" ∷ [];
      working_directory = ".";
      timeout_ms = 600;
      result = GateReceiptResult.failed;
    }
    ∷ [])

recorded_setup_violation_iff_example :
    (recorded_setup_violation writer recorded declared GateReceiptResult.setup_failed ≡ none)
    ↔ IsAdmissible writer (or_else recorded []) (or_else declared []) GateReceiptResult.setup_failed
recorded_setup_violation_iff_example =
    recorded_setup_violation_iff writer recorded declared GateReceiptResult.setup_failed
