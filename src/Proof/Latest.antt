-- ===== src/Proof/Latest.antt =====
-- `latestBy` of src/domain/proof.ts: a stable sort by sequence, and a map that later receipts
-- overwrite. A map is its lookup.
use threadloop.Base.{
  ℕ, ◌≤◌, String, Option, none, some, Bool-cases, true, false, List, [], ◌∷◌, ◌++◌, if◌then◌else◌,
  ◌==◌, leb, ◌≡◌, ◌≢◌, inl, inr, refl, sym, ap, ◌∙◌, arith, string_eq, All, eq_of_beq, subst,
}
use text.Mathlib.TextEquality.{eq_iff}
use mathlib.Core.Option.{some-injective}

module _ {A : Type 0} (sequence : A → ℕ) where
  -- `[...receipts].sort((left, right) => left.sequence - right.sequence)`
  unfoldable pub insert_by : A → List A → List A
  insert_by a [] = a ∷ []
  insert_by a (b ∷ bs) =
      let rest = insert_by a bs in if leb (sequence a) (sequence b) then a ∷ b ∷ bs else b ∷ rest

  unfoldable pub sort_by : List A → List A
  sort_by [] = []
  sort_by (a ∷ rest) = insert_by a (sort_by rest)

  module _ (key : A → String) where
    -- `map.set(key, value)`
    abbrev pub set : (String → Option A) → A → String → Option A
    set map a k = if key a == k then some a else map k

    unfoldable pub set_all : (String → Option A) → List A → String → Option A
    set_all map [] = map
    set_all map (a ∷ rest) = set_all (set map a) rest

    unfoldable pub latest_by : List A → String → Option A
    latest_by receipts = set_all (λ k. none) (sort_by receipts)

module _ {A : Type 0} {P Q : A → Type 0} where
  All-map : (f : (a : A) → P a → Q a) (xs : List A) → All P xs → All Q xs
  All-map f [] h = tt
  All-map f (x ∷ xs) (p, h) = (f x p, All-map f xs h)

true-false : true ≡ false → ⊥
true-false p = ground arith

-- Where an element stands in a list.
abbrev pub StandsIn : {A : Type 0} → List A → A → Type 0
StandsIn {A} xs x = (before : List A) × (after : List A) × (xs ≡ before ++ x ∷ after)

All-StandsIn : {A : Type 0} (xs : List A) → All (StandsIn xs) xs
All-StandsIn [] = tt
All-StandsIn (x ∷ xs) = (
  ([], xs, refl),
  All-map (λ y (before, after, e). (x ∷ before, after, ap (λ l. x ∷ l) e)) xs (All-StandsIn xs),
)

module _ {A : Type 0} (sequence : A → ℕ) where
  -- The sort neither drops nor adds a receipt.
  module _ (P : A → Type 0) where
    All-insert_by : (a : A) (xs : List A) → P a → All P xs → All P (insert_by sequence a xs)
    unfolding insert_by
    All-insert_by a [] p h = (p, tt)
    All-insert_by a (b ∷ bs) p (q, h) = elim (Bool-cases (leb (sequence a) (sequence b))) [
      | inl e ↦ rw e (p, (q, h))
      | inr e ↦ rw e (q, All-insert_by a bs p h)
    ]

    insert_by-All : (a : A) (xs : List A) → All P (insert_by sequence a xs) → P a × All P xs
    unfolding insert_by
    insert_by-All a [] (p, h) = (p, tt)
    insert_by-All a (b ∷ bs) h = elim (Bool-cases (leb (sequence a) (sequence b))) [
      | inl e ↦ rw e at h
      | inr e ↦
          let (q, rest) = rw e at h in let (p, others) = insert_by-All a bs rest in (p, (q, others))
    ]

    All-sort_by : (xs : List A) → All P xs → All P (sort_by sequence xs)
    unfolding sort_by
    All-sort_by [] h = tt
    All-sort_by (x ∷ xs) (p, h) = All-insert_by x (sort_by sequence xs) p (All-sort_by xs h)

    sort_by-All : (xs : List A) → All P (sort_by sequence xs) → All P xs
    unfolding sort_by
    sort_by-All [] h = tt
    sort_by-All (x ∷ xs) h =
        let (p, rest) = insert_by-All x (sort_by sequence xs) h in (p, sort_by-All xs rest)

  abbrev Sorted : List A → Type 0
  Sorted [] = Unit
  Sorted (x ∷ xs) = All (λ y. sequence x ≤ sequence y) xs × Sorted xs

  insert_by-Sorted : (a : A) (xs : List A) → Sorted xs → Sorted (insert_by sequence a xs)
  unfolding insert_by
  insert_by-Sorted a [] h = (tt, tt)
  insert_by-Sorted a (b ∷ bs) (first, h) = elim (Bool-cases (leb (sequence a) (sequence b))) [
    | inl e ↦ rw e (
      (
        ground arith,
        All-map (λ y k. let here : sequence a ≤ sequence b = ground arith in omega arith) bs first,
      ),
      (first, h),
    )
    | inr e ↦ rw e (
      All-insert_by (λ y. sequence b ≤ sequence y) a bs (ground arith) first,
      insert_by-Sorted a bs h,
    )
  ]

  sort_by-Sorted : (xs : List A) → Sorted (sort_by sequence xs)
  unfolding sort_by
  sort_by-Sorted [] = tt
  sort_by-Sorted (x ∷ xs) = insert_by-Sorted x (sort_by sequence xs) (sort_by-Sorted xs)

  module _ (key : A → String) (k : String) where
    set_all-All :
        (P : A → Type 0) (map : String → Option A) (xs : List A) {r : A}
        → All (λ x. key x ≡ k → P x) xs
        → ((r : A) → map k ≡ some r → P r)
        → set_all sequence key map xs k ≡ some r
        → P r
    unfolding set_all
    set_all-All P map [] h m e = m _ e
    set_all-All P map (x ∷ xs) (p, h) m e =
        set_all-All P (set sequence key map x) xs h
          (λ r s. elim (Bool-cases (key x == k)) [
            | inl same ↦ subst P (some-injective _ _ (rw same at s)) (p (eq_of_beq same))
            | inr other ↦ m r (rw other at s)
          ])
          e

    set_all-greatest :
        (map : String → Option A) (xs : List A) {r : A}
        → Sorted xs
        → set_all sequence key map xs k ≡ some r
        → All (λ x. key x ≡ k → sequence x ≤ sequence r) xs
    unfolding set_all
    set_all-greatest map [] h e = tt
    set_all-greatest map (x ∷ xs) {r} (first, h) e = (
      λ same.
          set_all-All (λ y. sequence x ≤ sequence y) (set sequence key map x) xs
            (All-map (λ y l _. l) xs first)
            (λ y s.
              subst (λ z. sequence x ≤ sequence z)
                (some-injective _ _ (rw ((eq_iff (key x) k).1 same) at s)) (omega arith))
            e,
      set_all-greatest (set sequence key map x) xs h e,
    )

    set_all-none :
        (map : String → Option A) (xs : List A)
        → set_all sequence key map xs k ≡ none
        → (map k ≡ none) × All (λ x. key x ≢ k) xs
    unfolding set_all
    set_all-none map [] e = (e, tt)
    set_all-none map (x ∷ xs) e =
        let (here, others) = set_all-none (set sequence key map x) xs e in
        elim (Bool-cases (key x == k)) [
          | inl same ↦ absurd (let s = rw same at here in ground arith)
          | inr other ↦ (
            rw other at here,
            ((λ s. absurd (true-false (sym ((eq_iff (key x) k).1 s) ∙ other))), others),
          )
        ]

module _ {A : Type 0} (sequence : A → ℕ) (key : A → String) (receipts : List A) (k : String) where
  -- The receipt that a key is looked up to.
  pub record IsLatest (receipt : A) : Type 0 where
    pub stands : StandsIn receipts receipt
    pub of_key : key receipt ≡ k
    pub is_greatest : All (λ other. key other ≡ k → sequence other ≤ sequence receipt) receipts

  -- The lookup of a key gives one of the receipts that have the key, and none of those that have it
  -- has a greater sequence.
  pub latest_by-IsLatest :
      (receipt : A) → latest_by sequence key receipts k ≡ some receipt → IsLatest receipt
  unfolding latest_by
  latest_by-IsLatest receipt e =
      let sorted = sort_by sequence receipts in
      let (stands, of_key) =
        set_all-All sequence key k (λ r. StandsIn receipts r × (key r ≡ k)) (λ _. none) sorted
          (All-map (λ r s same. (s, same)) sorted
            (All-sort_by sequence (StandsIn receipts) receipts (All-StandsIn receipts)))
          (λ r s. absurd (ground arith)) e in
      record {
        stands = stands;
        of_key = of_key;
        is_greatest =
            sort_by-All sequence (λ other. key other ≡ k → sequence other ≤ sequence receipt)
              receipts
              (set_all-greatest sequence key k (λ _. none) sorted (sort_by-Sorted sequence receipts)
                e);
      }

  -- The lookup gives nothing for a key that no receipt has.
  pub latest_by-none :
      latest_by sequence key receipts k ≡ none → All (λ other. key other ≢ k) receipts
  unfolding latest_by
  latest_by-none e =
      sort_by-All sequence (λ other. key other ≢ k) receipts
        (set_all-none sequence key k (λ _. none) (sort_by sequence receipts) e).1
