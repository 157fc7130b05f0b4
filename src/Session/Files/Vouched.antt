-- ===== src/Session/Files/Vouched.antt =====
-- src/services/session-service.ts: what a digest of a receipt's artifact vouches for.
use threadloop.Base.{
  String, Option, none, some, Option-cases, Bool-cases, Bool, true, false, not, ◌||◌, ◌≡◌, refl,
  ◌∙◌, List, [], ◌∷◌, ◌⊎◌, inl, inr, ◌==◌, ◌>>=◌, guard, is_some, string_eq, eq_of_beq, option_eq,
  any, arith, &&-eq-true, if◌then◌else◌,
}
use threadloop.Json.{Value, Items, nil, cons, Fields, get, as_object, as_array}
use threadloop.Proof.Receipt.{StoredGateReceipt}
use threadloop.Session.Files.{
  Files, controlled_path, is_not_null, streams_are_valid, steps_are_valid, setup_is_valid,
  execution_is_valid, execution_outputs_are_valid, artifact_digest, fill_map,
  read_receipt_artifact_digests,
}
use threadloop.Session.Files.Controlled.{
  option_bind, guard-some, IsControlled, controlled_path-IsControlled, IsKept,
  output_reference_is_valid-IsKept,
}

module _ (files : Files) where
  -- Both streams of the gate, or of a step.
  abbrev pub StreamsKept : String → Fields → Type 0
  StreamsKept directory fields =
      IsKept files directory (get "stdout" fields) × IsKept files directory (get "stderr" fields)

  streams_are_valid-StreamsKept :
      (directory : String) (fields : Fields)
      → streams_are_valid files directory fields ≡ true
      → StreamsKept directory fields
  unfolding streams_are_valid
  streams_are_valid-StreamsKept directory fields h =
      let (out, err) = &&-eq-true _ _ h in
      (
        output_reference_is_valid-IsKept files directory _ out,
        output_reference_is_valid-IsKept files directory _ err,
      )

  -- Every step of the setup kept both of its streams.
  pub data StepsKept (directory : String) : Items → Type 0 where
    no_step : StepsKept directory nil
    step :
        {value : Value} {fields : Fields} {steps : Items}
        → as_object (some value) ≡ some fields
        → StreamsKept directory fields
        → StepsKept directory steps
        → StepsKept directory (cons value steps)

  steps_are_valid-StepsKept :
      (directory : String) (steps : Items)
      → steps_are_valid files directory steps ≡ true
      → StepsKept directory steps
  unfolding steps_are_valid
  steps_are_valid-StepsKept directory nil h = no_step
  steps_are_valid-StepsKept directory (cons value steps) h =
      elim (Option-cases (as_object (some value))) [
        | inl e ↦ absurd (ground arith)
        | inr (fields, e) ↦
            let (streams, rest) = &&-eq-true _ _ (rw (steps_are_valid, e) at h) in
            step e (streams_are_valid-StreamsKept directory fields streams)
              (steps_are_valid-StepsKept directory steps rest)
      ]

  -- The setup of an execution, where it has one.
  pub data SetupKept (directory : String) : Option Value → Type 0 where
    no_setup : SetupKept directory none
    setup :
        {value : Value} {steps : Items}
        → as_array (some value) ≡ some steps
        → StepsKept directory steps
        → SetupKept directory (some value)

  setup_is_valid-SetupKept :
      (directory : String) (o : Option Value)
      → setup_is_valid files directory o ≡ true
      → SetupKept directory o
  unfolding setup_is_valid
  setup_is_valid-SetupKept directory none h = no_setup
  setup_is_valid-SetupKept directory (some value) h = elim (Option-cases (as_array (some value))) [
    | inl e ↦ absurd (ground arith)
    | inr (steps, e) ↦
        setup e (steps_are_valid-StepsKept directory steps (rw (setup_is_valid, e) at h))
  ]

  -- The streams of the gate are kept, or are both null beside a setup; the setup's are kept.
  pub record ExecutionKept (directory : String) (execution : Fields) : Type 0 where
    pub gate :
        StreamsKept directory execution
        ⊎ ((get "stdout" execution ≡ some Value.null)
            × (get "stderr" execution ≡ some Value.null)
            × (is_some (get "setup" execution) ≡ true))
    pub steps : SetupKept directory (get "setup" execution)

  is_null : (o : Option Value) → is_not_null files o ≡ false → o ≡ some Value.null
  unfolding is_not_null
  is_null o h = ground arith

  absent_or_valid :
      (a b c v : Bool)
      → (not (a || b || not c) || v) ≡ true
      → (v ≡ true) ⊎ ((a ≡ false) × (b ≡ false) × (c ≡ true))
  absent_or_valid a b c true h = inl refl
  absent_or_valid true b c false h = absurd (ground arith)
  absent_or_valid false true c false h = absurd (ground arith)
  absent_or_valid false false true false h = inr (refl, refl, refl)
  absent_or_valid false false false false h = absurd (ground arith)

  execution_is_valid-ExecutionKept :
      (directory : String) (execution : Fields)
      → execution_is_valid files directory execution ≡ true
      → ExecutionKept directory execution
  unfolding execution_is_valid
  execution_is_valid-ExecutionKept directory execution h =
      let (streams, steps) = &&-eq-true _ _ h in
      record {
        gate =
            elim (absent_or_valid (is_not_null files (get "stdout" execution))
              (is_not_null files (get "stderr" execution)) (is_some (get "setup" execution))
              (streams_are_valid files directory execution) streams) [
                | inl v ↦ inl (streams_are_valid-StreamsKept directory execution v)
                | inr (out, err, has_setup) ↦ inr (is_null _ out, is_null _ err, has_setup)
              ];
        steps = setup_is_valid-SetupKept directory _ steps;
      }

  -- The artifact of a receipt with a digest.
  pub record IsVouched (session_id : String) (receipt : StoredGateReceipt) (digest : String)
      : Type 0 where
    pub real : String
    pub content : String
    pub value : Value
    pub execution : Fields
    pub is_controlled : IsControlled files session_id receipt.artifact_path real
    pub digests : files.sha256_file real ≡ some digest
    pub has_content : files.read_file real ≡ some content
    pub parses : files.parse content ≡ some value
    pub is_object : as_object (some value) ≡ some execution
    pub is_kept : ExecutionKept (files.dirname real) execution

  execution_outputs_are_valid_lem :
      (directory path : String)
      → execution_outputs_are_valid files directory path ≡ true
      → (execution : Fields) × ((files.read_file path >>= files.parse >>= λ value.
            as_object (some value))
          ≡ some execution)
        × (execution_is_valid files directory execution ≡ true)
  unfolding execution_outputs_are_valid
  execution_outputs_are_valid_lem directory path h =
      elim (Option-cases
        (files.read_file path >>= files.parse >>= λ value. as_object (some value))) [
          | inl e ↦ absurd (ground arith)
          | inr (execution, e) ↦ (execution, e, rw (execution_outputs_are_valid, e) at h)
        ]

  artifact_digest-IsVouched :
      (session_id : String) (receipt : StoredGateReceipt) (digest : String)
      → artifact_digest files session_id receipt ≡ some digest
      → IsVouched session_id receipt digest
  unfolding artifact_digest
  artifact_digest-IsVouched session_id receipt digest h =
      let (real, c, h₁) =
        option_bind (controlled_path files session_id receipt.artifact_path) _ h in
      let (found, d, h₂) = option_bind (files.sha256_file real) _ h₁ in
      let (_, g, h₃) =
        option_bind (guard (execution_outputs_are_valid files (files.dirname real) real)) _ h₂ in
      let (execution, e, valid) =
        execution_outputs_are_valid_lem (files.dirname real) real (guard-some _ g) in
      let (value, v, o) = option_bind (files.read_file real >>= files.parse) _ e in
      let (content, r, p) = option_bind (files.read_file real) files.parse v in
      record {
        real = real;
        content = content;
        value = value;
        execution = execution;
        is_controlled = controlled_path-IsControlled files session_id receipt.artifact_path real c;
        digests = d ∙ h₃;
        has_content = r;
        parses = p;
        is_object = o;
        is_kept = execution_is_valid-ExecutionKept (files.dirname real) execution valid;
      }

-- An element of an array.
pub data IsAmong {A : Type 0} (a : A) : List A → Type 0 where
  here : {rest : List A} → IsAmong a (a ∷ rest)
  there : {b : A} {rest : List A} → IsAmong a rest → IsAmong a (b ∷ rest)

if-some :
    {A : Type 0} (b : Bool) {o : Option A} {a : A}
    → (if b then o else none) ≡ some a
    → (b ≡ true) × (o ≡ some a)
if-some true h = (refl, h)
if-some false h = absurd (ground arith)

-- An entry of a map that was filled comes from an element with its key.
fill_map_lem :
    {A : Type 0} (key : A → String) (value : A → Option String) (list : List A) (k v : String)
    → fill_map key value list k ≡ some v
    → (a : A) × IsAmong a list × (key a ≡ k) × (value a ≡ some v)
unfolding fill_map
fill_map_lem key value [] k v h = absurd (ground arith)
fill_map_lem key value (a ∷ rest) k v h = elim (Bool-cases (any (λ b. key b == k) rest)) [
  | inl e ↦
      let (b, among, has_key, has_value) =
        fill_map_lem key value rest k v (rw (fill_map, e) at h) in
      (b, there among, has_key, has_value)
  | inr e ↦
      let (same, has_value) = if-some (key a == k) (rw (fill_map, e) at h) in
      (a, here, eq_of_beq same, has_value)
]

-- An artifact digest that is read for a receipt's id is that of a receipt of the list with this id:
-- its written path is relative and leads, through every link, to a file inside the real receipts
-- directory of the session; the file has the digest and parses to an object; and each stream that
-- it records, of the gate and of every setup step, names a file in its own directory that has the
-- recorded digest, but for the gate's two streams where both are null beside a setup.
pub read_receipt_artifact_digests-IsVouched :
    (files : Files) (session_id : String) (receipts : List StoredGateReceipt) (id digest : String)
    → read_receipt_artifact_digests files session_id receipts id ≡ some digest
    → (receipt : StoredGateReceipt) × IsAmong receipt receipts
      × (receipt.id ≡ id)
      × IsVouched files session_id receipt digest
unfolding read_receipt_artifact_digests
read_receipt_artifact_digests-IsVouched files session_id receipts id digest h =
    let (receipt, among, has_id, read) =
      fill_map_lem (λ receipt. receipt.id) (artifact_digest files session_id) receipts id digest
        h in
    (receipt, among, has_id, artifact_digest-IsVouched files session_id receipt digest read)
