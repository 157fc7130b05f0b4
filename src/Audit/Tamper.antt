-- ===== src/Audit/Tamper.antt =====
-- What the root of a verified chain commits to.
use threadloop.Base.{
  ℕ, String, Option, none, some, Bool-cases, true, ◌≡◌, ◌≢◌, ◌⊎◌, inl, inr, refl, sym, subst, ◌∙◌,
  ap, arith, List, [], ◌∷◌, map, length, ◌==◌, string_eq,
}
use text.Mathlib.TextEquality.{eq_iff}
use threadloop.Json.{Value, Fields, get}
use threadloop.Json.Canonical.{canonicalize_json_value, canonical_json, array_index}
use threadloop.Audit.{
  StoredAuditEvent, AuditEventValue, event_json, event_object, verify_audit_chain, zero_audit_hash,
}
use threadloop.Audit.Chain.{IsLinked, Chained, link, done}
use threadloop.Audit.Verification.{verify_audit_chain_iff}

-- Two texts with one digest.
pub record Collision (digest : String → String) : Type 0 where
  pub left : String
  pub right : String
  pub differ : left ≢ right
  pub collide : digest left ≡ digest right

-- Two canonical values that the engine writes alike.
pub record Ambiguous (stringify : Value → String) : Type 0 where
  pub left : Value
  pub right : Value
  pub differ : left ≢ right
  pub alike : stringify left ≡ stringify right

text_of : Option Value → String
text_of (some (Value.text s)) = s
text_of _ = ""

fields_of : Value → Fields
fields_of (Value.object fields) = fields
fields_of _ = Fields.end

previous_of : Value → String
unfolding text_of fields_of get
previous_of v = text_of (get "previous_sha256" (fields_of v))

-- The canonical object of an event holds its previous hash.
previous_of-canonical :
    (value : AuditEventValue)
    → previous_of (canonicalize_json_value (event_object value)) ≡ value.previous_sha256
unfolding previous_of canonicalize_json_value event_object array_index
previous_of-canonical value = refl

module _ (stringify : Value → String) (digest : String → String) where
  abbrev pub Broken : Type 0
  Broken = Collision digest ⊎ Ambiguous stringify

  -- One text of two events links them to one hash, or the engine is ambiguous.
  same_previous :
      (v w : AuditEventValue)
      → event_json stringify v ≡ event_json stringify w
      → (v.previous_sha256 ≡ w.previous_sha256) ⊎ Ambiguous stringify
  unfolding event_json canonical_json
  same_previous v w e = elim (Bool-cases (v.previous_sha256 == w.previous_sha256)) [
    | inl same ↦ inl ((eq_iff v.previous_sha256 w.previous_sha256).0 same)
    | inr other ↦ inr (record {
      left = canonicalize_json_value (event_object v);
      right = canonicalize_json_value (event_object w);
      differ = λ h. ground (
        arith,
        previous_of-canonical v,
        previous_of-canonical w,
        ap previous_of h,
        eq_iff v.previous_sha256 w.previous_sha256,
      );
      alike = e;
    })
  ]

  -- Two linked events with one hash have one text and one hash before them.
  same_event :
      {n m : ℕ} {p q : String} (x y : StoredAuditEvent)
      → IsLinked stringify digest n p x
      → IsLinked stringify digest m q y
      → x.sha256 ≡ y.sha256
      → ((x.json ≡ y.json) × (p ≡ q)) ⊎ Broken
  same_event x y l k e = elim (Bool-cases (x.json == y.json)) [
    | inl same ↦
        let texts = (eq_iff x.json y.json).0 same in
        elim (same_previous x.value y.value (sym l.is_canonical ∙ texts ∙ k.is_canonical)) [
          | inl prior ↦ inl (texts, sym l.to_previous ∙ prior ∙ k.to_previous)
          | inr broken ↦ inr (inr broken)
        ]
    | inr other ↦ inr (
        inl (record {
          left = x.json;
          right = y.json;
          differ = λ h. ground (arith, eq_iff x.json y.json);
          collide = sym l.is_hashed ∙ e ∙ k.is_hashed;
        }))
  ]

  abbrev texts_of : List StoredAuditEvent → List String
  texts_of = map (λ event. event.json)

  same_chain :
      {n m : ℕ} {p q root : String} (xs ys : List StoredAuditEvent)
      → Chained stringify digest n p xs root
      → Chained stringify digest m q ys root
      → length xs ≡ length ys
      → ((texts_of xs ≡ texts_of ys) × (p ≡ q)) ⊎ Broken
  same_chain [] [] done done e = inl (refl, refl)
  same_chain [] (y ∷ ys) c d e = absurd (omega arith)
  same_chain (x ∷ xs) [] c d e = absurd (omega arith)
  same_chain (x ∷ xs) (y ∷ ys) (link l c) (link k d) e = elim (same_chain xs ys c d (omega arith)) [
    | inr broken ↦ inr broken
    | inl (texts, hashes) ↦ elim (same_event x y l k hashes) [
      | inr broken ↦ inr broken
      | inl (text, prior) ↦ inl (cc, prior)
    ]
  ]

  -- The root of a valid chain commits to every event of it: two valid chains of one length with the
  -- same root hold the same event texts in the same order, or else two texts are at hand with one
  -- digest, or two JSON values that the engine writes as one text.
  pub root_commits :
      (events others : List StoredAuditEvent)
      → let v = verify_audit_chain stringify digest events none in
        let w = verify_audit_chain stringify digest others none in
        v.valid ≡ true
        → w.valid ≡ true
        → v.root ≡ w.root
        → length events ≡ length others
        → (map (λ event. event.json) events ≡ map (λ event. event.json) others)
          ⊎ Collision digest
          ⊎ Ambiguous stringify
  root_commits events others v w r e =
      let first = (verify_audit_chain_iff stringify digest events none).0 v in
      let second = (verify_audit_chain_iff stringify digest others none).0 w in
      elim (same_chain {p = zero_audit_hash} {q = zero_audit_hash} events others first.chained
        (subst (λ root. Chained stringify digest 1 zero_audit_hash others root) (sym r)
          second.chained)
        e) [ inl (texts, prior) ↦ inl texts | inr broken ↦ inr broken ]
