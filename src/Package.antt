-- ===== src/Package.antt =====
-- The signed packages of src/domain/attestation.ts: their envelope, the statement that binds the
-- artifact, and the verification of a stored package. Schemas, which the zod package runs, and the
-- decoding of bytes by the runtime are parameters.
pub mod Verified
pub mod Ci
use threadloop.Base.{
  ℕ, ◌+◌, String, Option, none, some, Bool, true, false, not, ◌&&◌, ◌||◌, List, if◌then◌else◌, ◌==◌,
  is_some, nat_eq, string_eq, bool_eq, list_eq,
}
use threadloop.Json.{
  Value, null, boolean, number, negative, text, array, object, Items, nil, cons, Fields, end, field,
  get,
}
use threadloop.Json.Canonical.{canonical_json}
use threadloop.Proof.{GitHubActionsTrustPolicy}

pub record ArtifactSource : Type 0 where
  pub repository : String
  pub ref : String
  pub run_invocation_uri : String

-- `SignedReceiptKind`, with the artifact as the object that it is and with its `source`.
pub record SignedReceiptKind (A : Type 0) : Type 0 where
  pub schema : Value → Option A
  pub value_of : A → Value
  pub source_of : A → ArtifactSource
  pub media_type : A → String
  pub build_statement : A → String → Option Value

pub record ReceiptPackage : Type 0 where
  pub media_type : Value
  pub artifact : Value
  pub bundle : Value

-- What reads a package: the engine's JSON, the digest, `packageKeysSchema`, the payload of
-- `bundleSchema`, and the runtime's `Buffer`.
pub record PackageReader : Type 0 where
  pub stringify : Value → String
  pub parse : String → Option Value
  pub digest : String → String
  pub package_keys : Value → Option ReceiptPackage
  pub bundle_payload : Value → Option String
  pub from_base64 : String → List ℕ
  pub utf8_text : List ℕ → String
  pub utf8_bytes : String → List ℕ

pub record SignedEnvelope (A : Type 0) : Type 0 where
  pub artifact : A
  pub artifact_json : String
  pub artifact_sha256 : String
  pub statement_json : String
  pub statement_sha256 : String
  pub bundle : Value
  pub package_json : String
  pub package_sha256 : String

pub record ParsedSignedPackage (A : Type 0) : Type 0 where
  pub envelope : SignedEnvelope A
  pub statement : Value

pub record StoredSignedPackage : Type 0 where
  pub package_sha256 : String
  pub artifact_json : String
  pub artifact_sha256 : String
  pub statement_json : String
  pub statement_sha256 : String
  pub issuer : String
  pub certificate_identity : String
  pub build_signer_uri : String
  pub build_signer_sha : String
  pub source_repository : String
  pub source_ref : String
  pub run_invocation_uri : String

count_fields : Fields → ℕ
count_fields end = 0
count_fields (field k v rest) = let n = count_fields rest in n + 1

count_items : Items → ℕ
count_items nil = 0
count_items (cons v rest) = let n = count_items rest in n + 1

-- `firstDifference(actual, expected) === null`: the code tells the difference only to the operator.
unfoldable mutual
  unfolding count_fields count_items get

  pub is_same : Value → Value → Bool
  is_same (text s) (text t) = s == t
  is_same (number n) (number m) = n == m
  is_same (negative n) (negative m) = n == m
  is_same (boolean b) (boolean c) = b == c
  is_same null null = true
  is_same (array items) (array expected) =
      let rest = are_same_items items expected in count_items items == count_items expected && rest
  is_same (object fields) (object expected) =
      let rest = are_same_fields fields expected in
      count_fields fields == count_fields expected && rest
  is_same _ _ = false

  pub are_same_items : Items → Items → Bool
  are_same_items (cons v items) (cons w expected) =
      let first = is_same v w in let rest = are_same_items items expected in first && rest
  are_same_items nil nil = true
  are_same_items _ _ = false

  pub are_same_fields : Fields → Fields → Bool
  are_same_fields fields end = true
  are_same_fields fields (field k w expected) =
      let rest = are_same_fields fields expected in
      elim (get k fields) [ none ↦ false | some v ↦ is_same v w && rest ]

module _ (reader : PackageReader) {A : Type 0} (kind : SignedReceiptKind A) where
  -- The packageJson that is rebuilt from the parts.
  abbrev pub package_value : String → A → Value → Value
  package_value media_type artifact bundle = object (
      field "media_type" (text media_type)
        (field "artifact" (kind.value_of artifact) (field "bundle" bundle end)))

  abbrev pub is_text : Value → String → Bool
  is_text (text s) t = s == t
  is_text _ t = false

  -- What the decoded statement and the canonical artifact make.
  abbrev pub envelope_of : A → Value → String → SignedEnvelope A
  envelope_of artifact bundle statement_json =
      let artifact_json = canonical_json reader.stringify (kind.value_of artifact) in
      let package_json =
        canonical_json reader.stringify
          (package_value (kind.media_type artifact) artifact bundle) in
      record {
        artifact = artifact;
        artifact_json = artifact_json;
        artifact_sha256 = reader.digest artifact_json;
        statement_json = statement_json;
        statement_sha256 = reader.digest statement_json;
        bundle = bundle;
        package_json = package_json;
        package_sha256 = reader.digest package_json;
      }

  -- The payload, decoded, where decoding loses nothing.
  abbrev pub with_payload : A → Value → Option String → Option (SignedEnvelope A)
  with_payload artifact bundle none = none
  with_payload artifact bundle (some payload) =
      let bytes = reader.from_base64 payload in
      let statement_json = reader.utf8_text bytes in
      if not (reader.utf8_bytes statement_json == bytes)
      then none
      else some (envelope_of artifact bundle statement_json)

  abbrev pub with_artifact : ReceiptPackage → Option A → Option (SignedEnvelope A)
  with_artifact receipt_package none = none
  with_artifact receipt_package (some artifact) =
      if not (is_text receipt_package.media_type (kind.media_type artifact))
      then none
      else with_payload artifact receipt_package.bundle
          (reader.bundle_payload receipt_package.bundle)

  abbrev pub with_keys : Option ReceiptPackage → Option (SignedEnvelope A)
  with_keys none = none
  with_keys (some receipt_package) =
      with_artifact receipt_package (kind.schema receipt_package.artifact)

  -- `none` where the source throws.
  unfoldable pub parse_signed_envelope : Value → Option (SignedEnvelope A)
  parse_signed_envelope value = with_keys (reader.package_keys value)

  abbrev pub with_expected :
      SignedEnvelope A → Value → Option Value → Option (ParsedSignedPackage A)
  with_expected envelope statement none = none
  with_expected envelope statement (some expected) =
      if is_same statement expected
      then some (record { envelope = envelope; statement = expected })
      else none

  abbrev pub with_statement : SignedEnvelope A → Option Value → Option (ParsedSignedPackage A)
  with_statement envelope none = none
  with_statement envelope (some statement) =
      if not (canonical_json reader.stringify statement == envelope.statement_json)
      then none
      else with_expected envelope statement
          (kind.build_statement envelope.artifact envelope.artifact_sha256)

  unfoldable pub bind_signed_statement : SignedEnvelope A → Option (ParsedSignedPackage A)
  bind_signed_statement envelope = with_statement envelope (reader.parse envelope.statement_json)

  unfoldable pub matches_stored :
      StoredSignedPackage → String → GitHubActionsTrustPolicy → SignedEnvelope A → Bool
  matches_stored stored package_json policy parsed =
      let source = kind.source_of parsed.artifact in
      parsed.package_json == package_json
      && parsed.package_sha256 == stored.package_sha256
      && parsed.artifact_json == stored.artifact_json
      && parsed.artifact_sha256 == stored.artifact_sha256
      && parsed.statement_json == stored.statement_json
      && parsed.statement_sha256 == stored.statement_sha256
      && stored.issuer == policy.issuer
      && stored.certificate_identity == policy.certificate_identity
      && stored.build_signer_uri == policy.build_signer_uri
      && stored.build_signer_sha == policy.build_signer_sha
      && stored.source_repository == policy.source_repository
      && source.repository == stored.source_repository
      && source.ref == stored.source_ref
      && source.run_invocation_uri == stored.run_invocation_uri

  abbrev pub bind_envelope : Option (SignedEnvelope A) → Option (ParsedSignedPackage A)
  bind_envelope none = none
  bind_envelope (some envelope) = bind_signed_statement envelope

  -- A text that throws in any step is `none`.
  abbrev pub parse_package : Option Value → Option (ParsedSignedPackage A)
  parse_package none = none
  parse_package (some value) = bind_envelope (parse_signed_envelope value)

  abbrev pub if_matching :
      StoredSignedPackage
      → String
      → GitHubActionsTrustPolicy
      → Option (ParsedSignedPackage A)
      → Option (ParsedSignedPackage A)
  if_matching stored package_json policy none = none
  if_matching stored package_json policy (some parsed) =
      if matches_stored stored package_json policy parsed.envelope then some parsed else none

  -- A package that is missing is `none`.
  unfoldable pub reverify_stored_package :
      StoredSignedPackage
      → Option String
      → GitHubActionsTrustPolicy
      → Option (ParsedSignedPackage A)
  reverify_stored_package stored none policy = none
  reverify_stored_package stored (some package_json) policy =
      if package_json == "" || not (reader.digest package_json == stored.package_sha256)
      then none
      else if_matching stored package_json policy (parse_package (reader.parse package_json))
