-- ===== src/Session/Files.antt =====
-- src/services/session-service.ts and src/services/signed-receipt-files.ts: what is read of a
-- receipt's files, which must lie in the session's receipts directory.
pub mod Controlled
pub mod Vouched
use threadloop.Base.{
  ℕ, ◌*◌, String, Option, none, some, Bool, true, false, not, ◌&&◌, ◌||◌, List, [], ◌∷◌, ◌++◌,
  if◌then◌else◌, ◌==◌, ◌>>=◌, ◌>>◌, guard, any, is_some, codes, nat_eq, string_eq, option_eq,
}
use threadloop.Json.{Value, Items, nil, cons, Fields, get, as_object, as_text, as_array}
use threadloop.Proof.Receipt.{StoredGateReceipt}

-- `BoundedFileReadResult`
pub data BoundedFileRead : Type 0 where
  within_limit : List ℕ → BoundedFileRead
  too_large : ℕ → BoundedFileRead

-- `node:path` and the file system at one moment; `none` is a throw. `resolve` starts at the
-- repository's root.
pub record Files : Type 0 where
  pub resolve : List String → String
  pub relative : String → String → String
  pub is_absolute : String → Bool
  pub dirname : String → String
  pub separator : String
  pub realpath : String → Option String
  pub sha256_file : String → Option String
  pub read_file : String → Option String
  pub read_within_limit : String → ℕ → Option BoundedFileRead
  pub utf8_text : List ℕ → String
  pub parse : String → Option Value

-- text.startsWith(prefix)
unfoldable pub starts_with : List ℕ → List ℕ → Bool
starts_with [] cs = true
starts_with (p ∷ ps) [] = false
starts_with (p ∷ ps) (c ∷ cs) = p == c && starts_with ps cs

module _ (files : Files) where
  unfoldable pub escapes : String → Bool
  unfolding starts_with
  escapes relative =
      relative == ".."
      || starts_with (codes ".." ++ codes files.separator) (codes relative)
      || files.is_absolute relative

  abbrev pub receipts_root : String → String
  receipts_root session_id =
      files.resolve (".threadloop" ∷ "artifacts" ∷ "receipts" ∷ session_id ∷ [])

  -- The real path of a receipt's file, if its written and its real path both lie in the directory.
  unfoldable pub controlled_path : String → String → Option String
  unfolding escapes
  controlled_path session_id path =
      let root = receipts_root session_id in
      let resolved = files.resolve (path ∷ []) in
      if files.is_absolute path || escapes (files.relative root resolved) then none else do
        canonical_root ← files.realpath root
        canonical ← files.realpath resolved
        guard (not (escapes (files.relative canonical_root canonical)))
        some canonical

  unfoldable pub output_digest_matches : String → String → String → Bool
  unfolding escapes
  output_digest_matches directory path sha256 = elim (files.realpath (files.resolve (path ∷ []))) [
    | none ↦ false
    | some canonical ↦
        not (escapes (files.relative directory canonical))
        && files.sha256_file canonical == some sha256
  ]

  unfoldable pub output_reference_is_valid : String → Option Value → Bool
  unfolding as_object as_text get output_digest_matches
  output_reference_is_valid directory stream = is_some do
    output ← as_object stream
    path ← as_text (get "path" output)
    sha256 ← as_text (get "sha256" output)
    guard (output_digest_matches directory path sha256)
    some path

  -- `record[name] !== null`, true of a missing property
  unfoldable pub is_not_null : Option Value → Bool
  is_not_null (some Value.null) = false
  is_not_null _ = true

  unfoldable pub streams_are_valid : String → Fields → Bool
  unfolding get output_reference_is_valid
  streams_are_valid directory record' =
      output_reference_is_valid directory (get "stdout" record')
      && output_reference_is_valid directory (get "stderr" record')

  unfoldable pub steps_are_valid : String → Items → Bool
  unfolding streams_are_valid as_object
  steps_are_valid directory nil = true
  steps_are_valid directory (cons step steps) = elim (as_object (some step)) [
    | none ↦ false
    | some fields ↦ streams_are_valid directory fields && steps_are_valid directory steps
  ]

  unfoldable pub setup_is_valid : String → Option Value → Bool
  unfolding steps_are_valid as_array
  setup_is_valid directory none = true
  setup_is_valid directory (some setup) = elim (as_array (some setup)) [
    | none ↦ false
    | some steps ↦ steps_are_valid directory steps
  ]

  -- The streams of the gate may both be null where the artifact has setup steps.
  unfoldable pub execution_is_valid : String → Fields → Bool
  unfolding get is_not_null streams_are_valid setup_is_valid
  execution_is_valid directory execution =
      (not (
          is_not_null (get "stdout" execution)
          || is_not_null (get "stderr" execution)
          || not (is_some (get "setup" execution)))
        || streams_are_valid directory execution)
      && setup_is_valid directory (get "setup" execution)

  unfoldable pub execution_outputs_are_valid : String → String → Bool
  unfolding as_object execution_is_valid
  execution_outputs_are_valid directory path =
      elim (files.read_file path >>= files.parse >>= λ value. as_object (some value)) [
        | none ↦ false
        | some execution ↦ execution_is_valid directory execution
      ]

  -- What `digests` is set to for one receipt.
  unfoldable pub artifact_digest : String → StoredGateReceipt → Option String
  unfolding controlled_path execution_outputs_are_valid
  artifact_digest session_id receipt = do
    artifact ← controlled_path session_id receipt.artifact_path
    digest ← files.sha256_file artifact
    guard (execution_outputs_are_valid (files.dirname artifact) artifact)
    some digest

  abbrev pub max_signed_receipt_package_bytes : ℕ
  max_signed_receipt_package_bytes = 10 * 1024 * 1024

  unfoldable pub bounded_text : BoundedFileRead → Option String
  bounded_text (within_limit bytes) = some (files.utf8_text bytes)
  bounded_text (too_large _) = none

  -- What `contents` is set to for one package path.
  unfoldable pub package_content : String → String → Option String
  unfolding controlled_path bounded_text
  package_content session_id package_path = do
    canonical ← controlled_path session_id package_path
    content ← files.read_within_limit canonical max_signed_receipt_package_bytes
    bounded_text content

-- A map filled by `set` in a loop; a key that was never set, or was set to null, is `none`.
unfoldable pub fill_map :
    {A : Type 0} → (A → String) → (A → Option String) → List A → String → Option String
fill_map key value [] k = none
fill_map key value (a ∷ rest) k = elim (any (λ b. key b == k) rest) [
  | true ↦ fill_map key value rest k
  | false ↦ if key a == k then value a else none
]

unfoldable pub read_receipt_artifact_digests :
    Files → String → List StoredGateReceipt → String → Option String
unfolding fill_map artifact_digest
read_receipt_artifact_digests files session_id =
    fill_map (λ receipt. receipt.id) (artifact_digest files session_id)

-- The receipts by their ids and package paths.
unfoldable pub read_controlled_signed_receipt_package_contents :
    Files → String → {A : Type 0} → (A → String) → (A → String) → List A → String → Option String
unfolding fill_map package_content
read_controlled_signed_receipt_package_contents files session_id id_of path_of =
    fill_map id_of (λ receipt. package_content files session_id (path_of receipt))
