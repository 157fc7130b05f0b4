-- ===== src/Scenarios/Vouched.antt =====
-- The artifact of a receipt, with both of its streams.
use threadloop.Base.{some, ◌≡◌, refl}
use threadloop.Json.{get, as_object, as_text}
use threadloop.Proof.Receipt.{StoredGateReceipt}
use threadloop.Session.Files.{
  read_receipt_artifact_digests, fill_map, artifact_digest, controlled_path, escapes, starts_with,
  execution_outputs_are_valid, execution_is_valid, setup_is_valid, is_not_null, streams_are_valid,
  output_reference_is_valid, output_digest_matches,
}
use threadloop.Session.Files.Vouched.{IsAmong, IsVouched, read_receipt_artifact_digests-IsVouched}
use threadloop.Scenarios.Receipts.{receipts}
use threadloop.Scenarios.Handover.{files}

has_digest : read_receipt_artifact_digests files "S" receipts "receipt_2" ≡ some "log_hash"
unfolding read_receipt_artifact_digests fill_map artifact_digest controlled_path escapes starts_with
    execution_outputs_are_valid execution_is_valid setup_is_valid is_not_null streams_are_valid
    output_reference_is_valid output_digest_matches as_object as_text get files
has_digest = refl

read_receipt_artifact_digests-IsVouched_example :
    (receipt : StoredGateReceipt) × IsAmong receipt receipts
    × (receipt.id ≡ "receipt_2")
    × IsVouched files "S" receipt "log_hash"
read_receipt_artifact_digests-IsVouched_example =
    read_receipt_artifact_digests-IsVouched files "S" receipts "receipt_2" "log_hash" has_digest
