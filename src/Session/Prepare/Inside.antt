-- ===== src/Session/Prepare/Inside.antt =====
-- src/services/session-service.ts: what the check of `resolveProofWorkingDirectory` on the directory
-- of a gate establishes.
use threadloop.Base.{
  ℕ, String, Option, none, some, true, false, not, List, [], ◌∷◌, ◌++◌, ◌≡◌, ◌≢◌, refl, arith, inl,
  inr, all, All, codes, nat_eq, string_eq, list_eq, option_eq, beq_refl, Option-cases, &&-eq-true,
}
use threadloop.Proof.{ProofGate}
use threadloop.Session.Files.{Files, escapes, starts_with}
use threadloop.Session.Prepare.{directory_is_inside, directories_are_inside}

-- The real directory of the gate is the real directory of the repository or below it.
pub record IsInside (files : Files) (gate : ProofGate) : Type 0 where
  pub root : String
  pub directory : String
  pub real_root : files.realpath (files.resolve []) ≡ some root
  pub real_directory :
      files.realpath (files.resolve (root ∷ gate.working_directory ∷ [])) ≡ some directory
  pub not_parent : files.relative root directory ≢ ".."
  pub not_outside :
      (below : List ℕ)
      → codes (files.relative root directory) ≢ (codes ".." ++ codes files.separator) ++ below
  pub not_elsewhere : files.is_absolute (files.relative root directory) ≡ false

append-starts_with : (ps rest : List ℕ) → starts_with ps (ps ++ rest) ≡ true
unfolding starts_with
append-starts_with [] rest = refl
append-starts_with (p ∷ ps) rest = let k = append-starts_with ps rest in ground arith

module _ (files : Files) where
  escapes-IsInside :
      (relative : String)
      → escapes files relative ≡ false
      → (relative ≢ "..")
        × ((below : List ℕ) → codes relative ≢ (codes ".." ++ codes files.separator) ++ below)
        × (files.is_absolute relative ≡ false)
  unfolding escapes
  escapes-IsInside relative h = (
    λ e. ground (arith, beq_refl relative),
    λ below e.
        let k = append-starts_with (codes ".." ++ codes files.separator) below in
        let k' : starts_with (codes ".." ++ codes files.separator) (codes relative) ≡ true =
          rw e k in
        ground arith,
    ground arith,
  )

  directory_is_inside-IsInside :
      (root : String) (gate : ProofGate)
      → files.realpath (files.resolve []) ≡ some root
      → directory_is_inside files root gate ≡ true
      → IsInside files gate
  unfolding directory_is_inside
  directory_is_inside-IsInside root gate real h =
      elim (Option-cases (files.realpath (files.resolve (root ∷ gate.working_directory ∷ [])))) [
        | inl e ↦ absurd (ground arith)
        | inr (directory, e) ↦
            let k : not (escapes files (files.relative root directory)) ≡ true =
              rw (directory_is_inside, e) at h in
            let (parent, outside, elsewhere) =
              escapes-IsInside (files.relative root directory) (ground arith) in
            record {
              root = root;
              directory = directory;
              real_root = real;
              real_directory = e;
              not_parent = parent;
              not_outside = outside;
              not_elsewhere = elsewhere;
            }
      ]

  all-IsInside :
      (root : String) (gates : List ProofGate)
      → files.realpath (files.resolve []) ≡ some root
      → all (directory_is_inside files root) gates ≡ true
      → All (IsInside files) gates
  all-IsInside root [] real h = tt
  all-IsInside root (gate ∷ gates) real h =
      let (first, rest) =
        &&-eq-true (directory_is_inside files root gate)
          (all (directory_is_inside files root) gates) h in
      (directory_is_inside-IsInside root gate real first, all-IsInside root gates real rest)

  pub directories_are_inside-IsInside :
      (o : Option String) (gates : List ProofGate)
      → files.realpath (files.resolve []) ≡ o
      → directories_are_inside files o gates ≡ true
      → All (IsInside files) gates
  unfolding directories_are_inside
  directories_are_inside-IsInside none [] real h = tt
  directories_are_inside-IsInside none (gate ∷ gates) real h = absurd (ground arith)
  directories_are_inside-IsInside (some root) gates real h = all-IsInside root gates real h
