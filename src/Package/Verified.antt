-- ===== src/Package/Verified.antt =====
-- What `reverifyStoredPackage` establishes of the package that it returns.
use text.Mathlib.TextEquality.{eq_iff}
use mathlib.Core.Option.{some-injective}
use threadloop.Base.{
  String, Option, none, some, Bool-cases, true, not, ◌||◌, ◌==◌, ◌≡◌, inl, inr, refl, ◌∙◌, arith,
  string_eq, list_eq, nat_eq, eq_of_beq, subst,
}
use threadloop.Json.{Value}
use threadloop.Json.Canonical.{canonical_json}
use threadloop.Proof.{GitHubActionsTrustPolicy}
use threadloop.Package.{
  SignedReceiptKind, PackageReader, SignedEnvelope, ParsedSignedPackage, StoredSignedPackage,
  is_same, parse_signed_envelope, with_expected, with_statement, bind_signed_statement,
  matches_stored, bind_envelope, parse_package, if_matching, reverify_stored_package,
}

module _ (reader : PackageReader) {A : Type 0} (kind : SignedReceiptKind A) where
  -- The statement is canonical, and says of the artifact what the code would say of it.
  pub record BindsArtifact (parsed : ParsedSignedPackage A) : Type 0 where
    pub statement : Value
    pub is_parsed : reader.parse parsed.envelope.statement_json ≡ some statement
    pub is_canonical : canonical_json reader.stringify statement ≡ parsed.envelope.statement_json
    pub is_expected :
        kind.build_statement parsed.envelope.artifact parsed.envelope.artifact_sha256
        ≡ some parsed.statement
    pub is_same_statement : is_same statement parsed.statement ≡ true

  with_expected-BindsArtifact :
      (envelope : SignedEnvelope A) (statement : Value) (o : Option Value)
      {parsed : ParsedSignedPackage A}
      → kind.build_statement envelope.artifact envelope.artifact_sha256 ≡ o
      → reader.parse envelope.statement_json ≡ some statement
      → canonical_json reader.stringify statement ≡ envelope.statement_json
      → with_expected reader kind envelope statement o ≡ some parsed
      → BindsArtifact parsed
  with_expected-BindsArtifact envelope statement none b p c h = absurd (ground arith)
  with_expected-BindsArtifact envelope statement (some expected) b p c h =
      elim (Bool-cases (is_same statement expected)) [
        | inl e ↦ subst BindsArtifact (some-injective _ _ (rw e at h)) (record {
          statement = statement;
          is_parsed = p;
          is_canonical = c;
          is_expected = b;
          is_same_statement = e;
        })
        | inr e ↦ absurd (let k = rw e at h in ground arith)
      ]

  with_statement-BindsArtifact :
      (envelope : SignedEnvelope A) (o : Option Value) {parsed : ParsedSignedPackage A}
      → reader.parse envelope.statement_json ≡ o
      → with_statement reader kind envelope o ≡ some parsed
      → BindsArtifact parsed
  with_statement-BindsArtifact envelope none p h = absurd (ground arith)
  with_statement-BindsArtifact envelope (some statement) p h =
      elim (Bool-cases (canonical_json reader.stringify statement == envelope.statement_json)) [
        | inl e ↦ with_expected-BindsArtifact envelope statement _ refl p (eq_of_beq e) (rw e at h)
        | inr e ↦ absurd (let k = rw e at h in ground arith)
      ]

  bind_envelope-BindsArtifact :
      (o : Option (SignedEnvelope A)) {parsed : ParsedSignedPackage A}
      → bind_envelope reader kind o ≡ some parsed
      → BindsArtifact parsed
  unfolding bind_signed_statement
  bind_envelope-BindsArtifact none h = absurd (ground arith)
  bind_envelope-BindsArtifact (some envelope) h = with_statement-BindsArtifact envelope _ refl h

  parse_package-BindsArtifact :
      (o : Option Value) {parsed : ParsedSignedPackage A}
      → parse_package reader kind o ≡ some parsed
      → BindsArtifact parsed
  parse_package-BindsArtifact none h = absurd (ground arith)
  parse_package-BindsArtifact (some value) h =
      bind_envelope-BindsArtifact (parse_signed_envelope reader kind value) h

  module _ (stored : StoredSignedPackage) (policy : GitHubActionsTrustPolicy) where
    -- The package, the stored row, the policy and the source agree.
    pub record IsTrusted (package_json : String) (parsed : ParsedSignedPackage A) : Type 0 where
      pub is_hashed : reader.digest package_json ≡ stored.package_sha256
      pub whole : parsed.envelope.package_json ≡ package_json
      pub artifact : parsed.envelope.artifact_json ≡ stored.artifact_json
      pub statement : parsed.envelope.statement_json ≡ stored.statement_json
      pub issuer : stored.issuer ≡ policy.issuer
      pub identity : stored.certificate_identity ≡ policy.certificate_identity
      pub signer :
          (stored.build_signer_uri ≡ policy.build_signer_uri)
          × (stored.build_signer_sha ≡ policy.build_signer_sha)
      pub repository :
          (stored.source_repository ≡ policy.source_repository)
          × ((kind.source_of parsed.envelope.artifact).repository ≡ policy.source_repository)
      pub ref : (kind.source_of parsed.envelope.artifact).ref ≡ stored.source_ref
      pub run :
          (kind.source_of parsed.envelope.artifact).run_invocation_uri ≡ stored.run_invocation_uri
      pub binds : BindsArtifact parsed

    matches_stored-IsTrusted :
        (package_json : String) (parsed : ParsedSignedPackage A)
        → reader.digest package_json ≡ stored.package_sha256
        → BindsArtifact parsed
        → matches_stored reader kind stored package_json policy parsed.envelope ≡ true
        → IsTrusted package_json parsed
    unfolding matches_stored
    matches_stored-IsTrusted package_json parsed hashed binds h =
        let repository : stored.source_repository ≡ policy.source_repository =
          (eq_iff _ _).0 (ground arith) in
        record {
          is_hashed = hashed;
          whole = (eq_iff _ _).0 (ground arith);
          artifact = (eq_iff _ _).0 (ground arith);
          statement = (eq_iff _ _).0 (ground arith);
          issuer = (eq_iff _ _).0 (ground arith);
          identity = (eq_iff _ _).0 (ground arith);
          signer = ((eq_iff _ _).0 (ground arith), (eq_iff _ _).0 (ground arith));
          repository = (
            repository,
            (eq_iff (kind.source_of parsed.envelope.artifact).repository stored.source_repository).0
                  (ground arith)
                ∙ repository,
          );
          ref = (eq_iff _ _).0 (ground arith);
          run = (eq_iff _ _).0 (ground arith);
          binds = binds;
        }

    if_matching-IsTrusted :
        (package_json : String) (o : Option (ParsedSignedPackage A))
        {parsed : ParsedSignedPackage A}
        → reader.digest package_json ≡ stored.package_sha256
        → ((parsed : ParsedSignedPackage A) → o ≡ some parsed → BindsArtifact parsed)
        → if_matching reader kind stored package_json policy o ≡ some parsed
        → IsTrusted package_json parsed
    if_matching-IsTrusted package_json none d b h = absurd (ground arith)
    if_matching-IsTrusted package_json (some other) d b h =
        elim (Bool-cases (matches_stored reader kind stored package_json policy other.envelope)) [
          | inl e ↦
              subst (IsTrusted package_json) (some-injective _ _ (rw e at h))
                (matches_stored-IsTrusted package_json other d (b other refl) e)
          | inr e ↦ absurd (let k = rw e at h in ground arith)
        ]

    -- A stored package that is verified again has the recorded hash, is the canonical package of
    -- its parts, and holds the artifact and the statement that were recorded; the signer, the
    -- certificate and the source repository are those of the policy, the ref and the run those of
    -- the artifact, and the signed statement is canonical and is the one that the artifact calls
    -- for.
    pub reverify_stored_package-IsTrusted :
        (package_json : String) (parsed : ParsedSignedPackage A)
        → reverify_stored_package reader kind stored (some package_json) policy ≡ some parsed
        → IsTrusted package_json parsed
    unfolding reverify_stored_package
    reverify_stored_package-IsTrusted package_json parsed h =
        elim (Bool-cases
          (package_json == "" || not (reader.digest package_json == stored.package_sha256))) [
            | inl e ↦ absurd (let k = rw e at h in ground arith)
            | inr e ↦
                if_matching-IsTrusted package_json
                  (parse_package reader kind (reader.parse package_json))
                  ((eq_iff _ _).0 (ground arith))
                  (λ p k. parse_package-BindsArtifact (reader.parse package_json) k) (rw e at h)
          ]
