-- ===== src/Session/Transition/Applied.antt =====
-- What the transitions that `transitionSession` applies rest on.
use threadloop.Base.{
  Option, none, some, true, false, ◌≡◌, ◌≢◌, refl, sym, ap, ◌∙◌, subst, find, map_option, arith,
  List,
}
use mathlib.Core.Option.{some-injective}
use threadloop.Task.{completed, blocked, LifecyclePhase}
use threadloop.Proof.{ProofEvidenceStatus}
use threadloop.Review.{ReviewEvidence, has_blocking_review, has_current_human_approval}
use threadloop.Transition.{CiProofStatus, ProofGuardContext}
use threadloop.Transition.Authority.{ProofPassed}
use threadloop.Store.{Engine, AppliedTransition, applied, SessionStore}
use threadloop.Store.Ledger.{read_evidence_watermark, is_same_watermark}
use threadloop.Store.Rejection.{Fresh, has_key}
use threadloop.Session.{ProofState, Readers, ProofRepository}
use threadloop.Session.Files.{Files}
use threadloop.Session.Proof.{evaluate_session_proof}
use threadloop.Session.Basis.{HistoryEntry, Git}
use threadloop.Session.Basis.Context.{
  ci_proof_status, context_with, build_proof_guard_context, build_proof_guard_context-parts,
}
use threadloop.Session.Transition.{TransitionSessionInput, done, Snapshots, without_evidence}
use threadloop.Session.Transition.Run.{persist_input, transition_session}
use threadloop.Session.Transition.Edges.{
  rests_on_proof, Supported, Authorized-Supported, Completable, Authorized-Completable,
}
use threadloop.Session.Transition.Observed.{transition_session-Observes}
use threadloop.Session.Transition.Proven.{
  Proves, Reviews, evaluate_session_proof-Proves, evaluate_session_proof-Reviews,
}

-- The context has the evidence of the state.
build-evidence :
    (git : Git) (state : ProofState) (repository : ProofRepository) (phase : LifecyclePhase)
    (history : List HistoryEntry) {ctx : ProofGuardContext}
    → build_proof_guard_context git state repository phase history ≡ some ctx
    → (ctx.evidence ≡ some state.evidence)
      × (ctx.ci_evidence ≡ some (ci_proof_status state.ci_evidence.status))
      × (ctx.review_evidence ≡ some state.review_evidence)
unfolding context_with
build-evidence git state repository phase history p =
    let (implemented, repaired, _, _, e) =
      build_proof_guard_context-parts git state repository phase history p in
    (ap (λ c. c.evidence) e, ap (λ c. c.ci_evidence) e, ap (λ c. c.review_evidence) e)

ci_proof_status-passed :
    (status : Option ProofEvidenceStatus)
    → ci_proof_status status ≡ CiProofStatus.passed
    → status ≡ some ProofEvidenceStatus.passed
unfolding ci_proof_status
ci_proof_status-passed none h = absurd (ground arith)
ci_proof_status-passed (some ProofEvidenceStatus.missing) h = absurd (ground arith)
ci_proof_status-passed (some ProofEvidenceStatus.passed) h = refl
ci_proof_status-passed (some ProofEvidenceStatus.failed) h = absurd (ground arith)
ci_proof_status-passed (some ProofEvidenceStatus.setup_failed) h = absurd (ground arith)
ci_proof_status-passed (some ProofEvidenceStatus.stale) h = absurd (ground arith)
ci_proof_status-passed (some ProofEvidenceStatus.corrupt) h = absurd (ground arith)

module _ (engine : Engine) (readers : Readers) (files : Files) (git : Git) (snapshots : Snapshots)
    (request : TransitionSessionInput) where
  -- The snapshots of the evidence prove the plan at the repository's head.
  abbrev pub ProvesAtHead : Type 0
  ProvesAtHead =
      (repository : ProofRepository) × (snapshots.repository ≡ some repository)
      × Proves readers files request.session_id (some repository.head_sha) snapshots.rows

  module _ (repository : ProofRepository) (phase : LifecyclePhase) (history : List HistoryEntry)
      {ctx : ProofGuardContext}
      (built : build_proof_guard_context git
          (evaluate_session_proof readers files request.session_id
            (some repository.head_sha)
            snapshots.rows)
          repository
          phase
          history
        ≡ some ctx) where
    passed-Proves :
        ProofPassed ctx
        → Proves readers files request.session_id (some repository.head_sha) snapshots.rows
    passed-Proves passed =
        let (evidence, ci, _) = build-evidence git _ repository phase history built in
        evaluate_session_proof-Proves readers files request.session_id (some repository.head_sha)
          snapshots.rows
          (some-injective _ _ (sym (ap (map_option (λ e. e.status)) evidence) ∙ passed.local))
          (ci_proof_status-passed _ (some-injective _ _ (sym ci ∙ passed.signed)))

    -- The review of the context is the snapshot's.
    Completable-Reviews :
        (c : Completable ctx)
        → Reviews readers files request.session_id
            (some repository.head_sha)
            snapshots.rows
            c.reviewed.evidence
    Completable-Reviews c =
        let (_, _, review) = build-evidence git _ repository phase history built in
        let same = some-injective _ _ (sym review ∙ c.reviewed.imported) in
        subst (Reviews readers files request.session_id (some repository.head_sha) snapshots.rows)
          same
          (evaluate_session_proof-Reviews readers files request.session_id
            (some repository.head_sha) snapshots.rows
            (ap (λ evidence. evidence.status) same ∙ c.reviewed.is_current))

  -- What a completion rests on: the plan is proven at the head, and the signed snapshot of the
  -- review at the head has no blocking finding, a human approval and the merge.
  pub record Finished : Type 0 where
    pub repository : ProofRepository
    pub evidence : ReviewEvidence
    pub in_repository : snapshots.repository ≡ some repository
    pub proves : Proves readers files request.session_id (some repository.head_sha) snapshots.rows
    pub reviews :
        Reviews readers files request.session_id (some repository.head_sha) snapshots.rows evidence
    pub clear : has_blocking_review evidence ≡ false
    pub approved : has_current_human_approval evidence ≡ true
    pub merged : evidence.merged ≡ true

  module _ (fresh : Fresh) (s t : SessionStore) (a : AppliedTransition)
      (new : find
          (has_key engine fresh
            (persist_input engine readers files git snapshots request without_evidence))
          s.idempotency
        ≡ none)
      (d : transition_session engine readers files git snapshots request fresh s
        ≡ done (applied a, t)) where
    -- A transition that a call with a new key applies, out of a state that is not blocked and into
    -- pre-PR review, review, hand-over or completion, rests on evidence that was read before: in
    -- the repository as it was observed, the stored proof plan binds, the latest receipt of every
    -- gate proves the gate at the observed head, and so does the latest signed receipt of CI under
    -- the plan's policy. The evidence is still that of the store when the transition is written: no
    -- receipt was appended since the watermark was read, before the evidence.
    pub transition_session-Proves :
        a.transition.from_state ≢ blocked
        → rests_on_proof a.transition.to_state ≡ true
        → ProvesAtHead
          × (is_same_watermark
                (read_evidence_watermark s)
                (read_evidence_watermark snapshots.at_watermark)
              ≡ true)
    transition_session-Proves live rests =
        let (o, current) =
          transition_session-Observes engine readers files git snapshots request Supported
            (λ ctx supported. (supported.repository, supported.located)) fresh s t a new d
            (λ context source input ctx from_source to_target moves.
              Authorized-Supported (λ e. live (from_source ∙ e))
                (subst (λ state. rests_on_proof state ≡ true) to_target rests)) in
        (
          (o.repository, o.in_repository, passed-Proves o.repository _ _ o.is_built o.holds.passed),
          current,
        )

    -- A call with a new key that applies the transition to completion read a proof that passed
    -- locally and by CI, and a signed review snapshot of the same head under the stored plan's
    -- review policy, the one with the greatest sequence, that has no blocking finding, has a current
    -- human approval and reports the merge; and no receipt was appended since.
    pub transition_session-Finished :
        a.transition.to_state ≡ completed
        → Finished
          × (is_same_watermark
                (read_evidence_watermark s)
                (read_evidence_watermark snapshots.at_watermark)
              ≡ true)
    transition_session-Finished ends =
        let (o, current) =
          transition_session-Observes engine readers files git snapshots request Completable
            (λ ctx c. (c.reviewed.repository, c.reviewed.observed)) fresh s t a new d
            (λ context source input ctx from_source to_target moves.
              Authorized-Completable moves (sym to_target ∙ ends)) in
        (
          record {
            repository = o.repository;
            evidence = o.holds.reviewed.evidence;
            in_repository = o.in_repository;
            proves = passed-Proves o.repository _ _ o.is_built o.holds.passed;
            reviews = Completable-Reviews o.repository _ _ o.is_built o.holds;
            clear = o.holds.clear;
            approved = o.holds.approved;
            merged = o.holds.merged;
          },
          current,
        )
