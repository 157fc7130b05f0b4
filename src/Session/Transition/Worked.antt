-- ===== src/Session/Transition/Worked.antt =====
-- A transition that `transitionSession` applies into verification rests on commits.
use threadloop.Base.{
  ℕ, String, Option, none, some, Bool-cases, Bool, true, false, not, ◌&&◌, if◌then◌else◌, ◌≡◌, ◌≢◌,
  ◌⊎◌, refl, sym, ap, ◌∙◌, inl, inr, map, find, map_option, ◌==◌, arith, List, string_eq,
}
use mathlib.Core.Option.{some-injective}
use threadloop.Task.{verifying, blocked, LifecyclePhase}
use threadloop.Transition.{ProofGuardContext}
use threadloop.Store.{Engine, AppliedTransition, applied, SessionStore}
use threadloop.Store.Ledger.{read_evidence_watermark, is_same_watermark}
use threadloop.Store.Rejection.{Fresh, has_key}
use threadloop.Session.{ProofState, Readers, ProofRepository}
use threadloop.Session.Files.{Files}
use threadloop.Session.Proof.{evaluate_session_proof}
use threadloop.Session.Basis.{
  HistoryEntry, Git, is_full_commit_sha, is_ancestor, differs, after_ancestry, has_committed_diff,
  committed_from,
}
use threadloop.Session.Basis.Context.{
  work_basis, repaired_from, context_with, build_proof_guard_context,
  build_proof_guard_context-parts,
}
use threadloop.Session.Transition.{
  TransitionSessionInput, done, Snapshots, SessionLifecycle, history_entry, without_evidence,
}
use threadloop.Session.Transition.Run.{session_phase, persist_input, transition_session}
use threadloop.Session.Transition.Reading.{IsLifecycle, read_session_lifecycle-IsLifecycle}
use threadloop.Session.Transition.Edges.{Committed, Authorized-Committed}
use threadloop.Session.Transition.Observed.{transition_session-Observes}

-- Git reports that the head descends from the basis and that their trees differ.
pub record IsCommittedSince (git : Git) (basis head : String) : Type 0 where
  pub names_commit : is_full_commit_sha basis ≡ true
  pub descends : git.merge_base_is_ancestor basis head ≡ some 0
  pub changes : git.diff_quiet basis head ≡ some 1

is_ancestor_zero : (o : Option ℕ) → is_ancestor o ≡ some true → o ≡ some 0
unfolding is_ancestor
is_ancestor_zero none h = absurd (ground arith)
is_ancestor_zero (some code) h = ground arith

differs_one : (o : Option ℕ) → differs o ≡ some true → o ≡ some 1
unfolding differs
differs_one none h = absurd (ground arith)
differs_one (some code) h = ground arith

after_ancestry_lem :
    (o : Option Bool) (code : Option ℕ)
    → after_ancestry o code ≡ some true
    → (o ≡ some true) × (differs code ≡ some true)
after_ancestry_lem none code h = absurd (ground arith)
after_ancestry_lem (some true) code h = (refl, h)
after_ancestry_lem (some false) code h = absurd (ground arith)

if-true : (b : Bool) {o : Option Bool} → (if b then some false else o) ≡ some true → o ≡ some true
if-true true h = absurd (ground arith)
if-true false h = h

module _ (git : Git) where
  has_committed_diff-IsCommittedSince :
      (basis head : String)
      → is_full_commit_sha basis ≡ true
      → has_committed_diff git basis head ≡ some true
      → IsCommittedSince git basis head
  unfolding has_committed_diff
  has_committed_diff-IsCommittedSince basis head full h =
      let (first, second) =
        after_ancestry_lem (is_ancestor (git.merge_base_is_ancestor basis head))
          (git.diff_quiet basis head) (if-true _ h) in
      record {
        names_commit = full;
        descends = is_ancestor_zero _ first;
        changes = differs_one _ second;
      }

  only_then :
      (b : Bool) {o : Option Bool} → (if b then o else some false) ≡ some true → o ≡ some true
  only_then true h = h
  only_then false h = absurd (ground arith)

  not_full :
      (basis head : String)
      → is_full_commit_sha basis ≡ false
      → committed_from git (some basis) head ≡ some true
      → ⊥
  unfolding committed_from
  not_full basis head e h = ground arith

  committed_from-IsCommittedSince :
      (o : Option String) (head : String)
      → committed_from git o head ≡ some true
      → (basis : String) × (o ≡ some basis) × IsCommittedSince git basis head
  unfolding committed_from
  committed_from-IsCommittedSince none head h = absurd (ground arith)
  committed_from-IsCommittedSince (some basis) head h =
      elim (Bool-cases (is_full_commit_sha basis)) [
        | inl e ↦ (
          basis,
          refl,
          has_committed_diff-IsCommittedSince basis head e
              (only_then (is_full_commit_sha basis && not (basis == head)) h),
        )
        | inr e ↦ absurd (not_full basis head e h)
      ]

module _ (git : Git) (state : ProofState) (repository : ProofRepository) (phase : LifecyclePhase)
    (history : List HistoryEntry) where
  -- The basis of the work, or of the repair, that the head is committed since.
  pub record Since : Type 0 where
    pub basis : String
    pub of_work_or_repair :
        (map_option (λ b. b.head_sha) (work_basis git state repository phase history) ≡ some basis)
        ⊎ (repaired_from git state repository phase history ≡ some basis)
    pub is_committed : IsCommittedSince git basis repository.head_sha

  Committed-Since :
      {ctx : ProofGuardContext}
      → build_proof_guard_context git state repository phase history ≡ some ctx
      → Committed ctx
      → Since
  unfolding context_with
  Committed-Since {ctx} built c =
      let (implemented, repaired, i, r, e) =
        build_proof_guard_context-parts git state repository phase history built in
      let same = some-injective _ _ (sym c.located ∙ ap (λ ctx. ctx.repository) e) in
      elim c.is_committed [
        | inl h ↦
            let flag = sym (ap (λ o. o.committed_implementation_from_basis) same) ∙ h in
            let (basis, from_work, since) =
              committed_from-IsCommittedSince git _ repository.head_sha (i ∙ ap some flag) in
            record { basis = basis; of_work_or_repair = inl from_work; is_committed = since }
        | inr h ↦
            let flag = sym (ap (λ o. o.committed_repair_from_failure) same) ∙ h in
            let (basis, from_repair, since) =
              committed_from-IsCommittedSince git _ repository.head_sha (r ∙ ap some flag) in
            record { basis = basis; of_work_or_repair = inr from_repair; is_committed = since }
      ]

module _ (engine : Engine) (readers : Readers) (files : Files) (git : Git) (snapshots : Snapshots)
    (request : TransitionSessionInput) where
  -- The observed head, and what it is committed since, by the history that was read.
  pub record Worked : Type 0 where
    pub lifecycle : SessionLifecycle
    pub is_lifecycle : IsLifecycle engine snapshots.at_lifecycle lifecycle
    pub repository : ProofRepository
    pub in_repository : snapshots.repository ≡ some repository
    pub since :
        Since git
          (evaluate_session_proof readers files request.session_id
            (some repository.head_sha)
            snapshots.rows)
          repository
          (session_phase engine readers files git snapshots request lifecycle)
          (map (history_entry engine) lifecycle.history)

  -- A transition that a call with a new key applies into verification, out of a state that is not
  -- blocked, was asked for at a head that git reports to descend from a full commit and to differ
  -- from it: the commit of the implementation basis, or that of the repair basis, which the receipts
  -- that were read and the history of the session that was read give: every transition of its store,
  -- which its row and its audit chain agree with. No receipt was appended since the watermark was
  -- read.
  pub transition_session-Worked :
      (fresh : Fresh) (s t : SessionStore) (a : AppliedTransition)
      → find
          (has_key engine fresh
            (persist_input engine readers files git snapshots request without_evidence))
          s.idempotency
        ≡ none
      → transition_session engine readers files git snapshots request fresh s ≡ done (applied a, t)
      → a.transition.from_state ≢ blocked
      → a.transition.to_state ≡ verifying
      → Worked
        × (is_same_watermark
              (read_evidence_watermark s)
              (read_evidence_watermark snapshots.at_watermark)
            ≡ true)
  transition_session-Worked fresh s t a new d live verifies =
      let (o, current) =
        transition_session-Observes engine readers files git snapshots request Committed
          (λ ctx c. (c.repository, c.located)) fresh s t a new d
          (λ context source input ctx from_source to_target moves.
            Authorized-Committed (λ e. live (from_source ∙ e)) (sym to_target ∙ verifies)) in
      (
        record {
          lifecycle = o.lifecycle;
          is_lifecycle = read_session_lifecycle-IsLifecycle engine snapshots.at_lifecycle o.is_read;
          repository = o.repository;
          in_repository = o.in_repository;
          since = Committed-Since git _ o.repository _ _ o.is_built o.holds;
        },
        current,
      )
