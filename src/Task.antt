-- ===== src/Task.antt =====
-- src/domain/types.ts: the lifecycle states, the phases and the stored task and session.
use threadloop.Base.{ℕ, ◌≡◌, true, eqb, StrictEquality, ◌↔◌, arith}

pub data TaskStatus : Type 0 where
  queued framed proof_ready implementing verifying pre_pr_reviewing reviewing repairing : TaskStatus
  ready_for_human blocked completed : TaskStatus

pub data LifecyclePhase : Type 0 where
  pre_pr post_pr : LifecyclePhase

abbrev rank : TaskStatus → ℕ
rank queued = 0
rank framed = 1
rank proof_ready = 2
rank implementing = 3
rank verifying = 4
rank pre_pr_reviewing = 5
rank reviewing = 6
rank repairing = 7
rank ready_for_human = 8
rank blocked = 9
rank completed = 10

pub status_iff : (a b : TaskStatus) → (eqb (rank a) (rank b) ≡ true) ↔ (a ≡ b)
status_iff a b = (λ h. ground arith, λ h. ground arith)

instance abbrev pub status_eq : StrictEquality TaskStatus
status_eq = record { strict = λ a b. eqb (rank a) (rank b); strict_iff = status_iff }

abbrev phase_rank : LifecyclePhase → ℕ
phase_rank pre_pr = 0
phase_rank post_pr = 1

pub phase_iff : (a b : LifecyclePhase) → (eqb (phase_rank a) (phase_rank b) ≡ true) ↔ (a ≡ b)
phase_iff a b = (λ h. ground arith, λ h. ground arith)

instance abbrev pub phase_eq : StrictEquality LifecyclePhase
phase_eq = record { strict = λ a b. eqb (phase_rank a) (phase_rank b); strict_iff = phase_iff }

-- ENTRY_SOURCES, which are also the actors of a transition request.
pub data EntrySource : Type 0 where
  cli agent : EntrySource
