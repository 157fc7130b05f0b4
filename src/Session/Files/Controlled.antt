-- ===== src/Session/Files/Controlled.antt =====
-- src/services/session-service.ts: paths that stay in the receipts directory, and the files that
-- an artifact refers to.
use threadloop.Base.{
  String, Option, none, some, Option-cases, Bool, true, false, not, ◌||◌, ◌≡◌, refl, ◌∙◌, ap, [],
  ◌∷◌, inl, inr, ◌==◌, ◌>>=◌, guard, is_some, string_eq, eq_of_beq, subst, option_eq, arith,
  &&-eq-true, if◌then◌else◌,
}
use mathlib.Core.Option.{some-injective}
use threadloop.Json.{Value, Fields, get, as_object, as_text}
use threadloop.Session.Files.{
  Files, escapes, receipts_root, controlled_path, output_digest_matches, output_reference_is_valid,
}

pub option_bind :
    {A B : Type 0} (o : Option A) (f : A → Option B) {b : B}
    → (o >>= f) ≡ some b
    → (a : A) × (o ≡ some a) × (f a ≡ some b)
option_bind none f p = absurd (ground arith)
option_bind (some a) f p = (a, refl, p)

pub guard-some : (b : Bool) {u : Unit {0}} → guard b ≡ some u → b ≡ true
guard-some true h = refl
guard-some false h = absurd (ground arith)

module _ (files : Files) where
  -- The path leads, through every link, to a file inside the real directory of the session.
  pub record IsControlled (session_id path real : String) : Type 0 where
    pub root : String
    pub is_relative : files.is_absolute path ≡ false
    pub real_root : files.realpath (receipts_root files session_id) ≡ some root
    pub real_path : files.realpath (files.resolve (path ∷ [])) ≡ some real
    pub stays_inside : escapes files (files.relative root real) ≡ false

  if-none :
      {A : Type 0} (b : Bool) {o : Option A} {a : A}
      → (if b then none else o) ≡ some a
      → (b ≡ false) × (o ≡ some a)
  if-none true h = absurd (ground arith)
  if-none false h = (refl, h)

  or-false : (a b : Bool) → (a || b) ≡ false → a ≡ false
  or-false a b h = ground arith

  not-true : (b : Bool) → not b ≡ true → b ≡ false
  not-true b h = ground arith

  pub controlled_path-IsControlled :
      (session_id path real : String)
      → controlled_path files session_id path ≡ some real
      → IsControlled session_id path real
  unfolding controlled_path
  controlled_path-IsControlled session_id path real h =
      let (inside, h') = if-none (files.is_absolute path || _) h in
      let (root, r, h₁) = option_bind (files.realpath (receipts_root files session_id)) _ h' in
      let (found, f, h₂) = option_bind (files.realpath (files.resolve (path ∷ []))) _ h₁ in
      let (_, g, h₃) = option_bind (guard (not (escapes files (files.relative root found)))) _ h₂ in
      let same = some-injective _ _ h₃ in
      record {
        root = root;
        is_relative = or-false (files.is_absolute path) _ inside;
        real_root = r;
        real_path = f ∙ ap some same;
        stays_inside = not-true _ (
            guard-some _
              (subst (λ p. guard (not (escapes files (files.relative root p))) ≡ some _) same g));
      }

  -- A stream that names a file inside the artifact's directory with the digest that it records.
  pub record IsKept (directory : String) (stream : Option Value) : Type 0 where
    pub output : Fields
    pub path : String
    pub sha256 : String
    pub real : String
    pub is_output : as_object stream ≡ some output
    pub has_path : as_text (get "path" output) ≡ some path
    pub has_digest : as_text (get "sha256" output) ≡ some sha256
    pub real_path : files.realpath (files.resolve (path ∷ [])) ≡ some real
    pub stays_inside : escapes files (files.relative directory real) ≡ false
    pub digests : files.sha256_file real ≡ some sha256

  some_of : {A : Type 0} (o : Option A) → is_some o ≡ true → (a : A) × (o ≡ some a)
  some_of none h = absurd (ground arith)
  some_of (some a) h = (a, refl)

  output_digest_matches_lem :
      (directory path sha256 : String)
      → output_digest_matches files directory path sha256 ≡ true
      → (real : String) × (files.realpath (files.resolve (path ∷ [])) ≡ some real)
        × (escapes files (files.relative directory real) ≡ false)
        × (files.sha256_file real ≡ some sha256)
  unfolding output_digest_matches
  output_digest_matches_lem directory path sha256 h =
      elim (Option-cases (files.realpath (files.resolve (path ∷ [])))) [
        | inl e ↦ absurd (ground arith)
        | inr (real, e) ↦
            let (inside, same) =
              &&-eq-true (not (escapes files (files.relative directory real)))
                (files.sha256_file real == some sha256) (rw (output_digest_matches, e) at h) in
            (real, e, not-true _ inside, eq_of_beq same)
      ]

  pub output_reference_is_valid-IsKept :
      (directory : String) (stream : Option Value)
      → output_reference_is_valid files directory stream ≡ true
      → IsKept directory stream
  unfolding output_reference_is_valid
  output_reference_is_valid-IsKept directory stream h =
      let (whole, h₀) = some_of _ h in
      let (output, o, h₁) = option_bind (as_object stream) _ h₀ in
      let (path, p, h₂) = option_bind (as_text (get "path" output)) _ h₁ in
      let (sha256, d, h₃) = option_bind (as_text (get "sha256" output)) _ h₂ in
      let (_, g, h₄) =
        option_bind (guard (output_digest_matches files directory path sha256)) _ h₃ in
      let (real, r, inside, same) =
        output_digest_matches_lem directory path sha256 (guard-some _ g) in
      record {
        output = output;
        path = path;
        sha256 = sha256;
        real = real;
        is_output = o;
        has_path = p;
        has_digest = d;
        real_path = r;
        stays_inside = inside;
        digests = same;
      }
