-- ===== src/Gaap/Json/Accepts/Trees.antt =====
-- src/domain/gaap-json.ts: the induction on the fuel over `value`, `object` and `array`.
use threadloop.Base.{
  ℕ, zero, suc, ◌+◌, ◌*◌, ◌≤◌, ◌<◌, ◌≡◌, refl, List, [], ◌∷◌, Bool, true, false, not, ◌==◌, nat_eq,
  list_eq, beq_list_iff, Bool-cases, length, contains, All, arith, inl, inr,
}
use threadloop.Gaap.Json.{Host, Value, Items, Fields, expect}
use threadloop.Gaap.Json.Scan.{starts, advance}
use threadloop.Gaap.Json.Scan.Shorter.{length-advance, length-advance-starts}
use threadloop.Gaap.Json.Reader.{
  Reader, max_depth, max_values, pass, skip, exceeds, read_value, read_object, read_members,
  read_array, read_elements,
}
use threadloop.Gaap.Json.Ends.{Ends, reads, refuses, Ends-split, Ends-expect, Ends-then, Ends-map}
use threadloop.Gaap.Json.Bounded.{
  larger, size, items_size, fields_size, height, items_height, fields_height, keys_of, IsStrict,
  ItemsStrict, FieldsStrict,
}
use threadloop.Gaap.Json.Accepts.{
  Takes, length-skip, values-skip, pass-Ends, read_string-Ends, read_scalar-Ends,
}

within_limits :
    (depth : ℕ) (s : Reader)
    → exceeds depth s ≡ false
    → (depth ≤ max_depth) × (suc s.values ≤ max_values)
unfolding exceeds
within_limits depth s h = ground arith

add-larger :
    (depth a b limit : ℕ) → depth + a ≤ limit → depth + b ≤ limit → depth + larger a b ≤ limit
add-larger depth a b limit h k = ground arith

-- No key of the fields is among the keys.
abbrev Avoids : {N : Type 0} → List (List ℕ) → Fields N → Type 0
Avoids keys fields = All (λ key. contains keys key ≡ false) (keys_of fields)

contains-cons :
    (keys : List (List ℕ)) (key other : List ℕ)
    → contains (key ∷ keys) other ≡ false
    → ((other == key) ≡ false) × (contains keys other ≡ false)
contains-cons keys key other h = elim (Bool-cases (other == key)) [
  | inl e ↦
      let same : (key == other) ≡ true =
        (beq_list_iff key other).1 (cc ((beq_list_iff other key).0 e)) in
      absurd (cc (rw same at h))
  | inr e ↦ (e, ground arith)
]

-- Keys that avoid `key` too do not contain it.
All-contains :
    (keys others : List (List ℕ)) (key : List ℕ)
    → All (λ other. contains (key ∷ keys) other ≡ false) others
    → (contains others key ≡ false) × All (λ other. contains keys other ≡ false) others
All-contains keys [] key h = (refl, tt)
All-contains keys (other ∷ others) key (h, hs) =
    let (differs, avoided) = contains-cons keys key other h in
    let (apart, rest) = All-contains keys others key hs in (simp (differs, apart), (avoided, rest))

not-eq-true : {b : Bool} → not b ≡ true → b ≡ false
not-eq-true {b = true} h = cc
not-eq-true {b = false} h = refl

-- A key that is new, and the colon behind it.
expect-pass-Ends :
    (keys : List (List ℕ)) (key : List ℕ) (s : Reader)
    → Ends
        (λ t.
          (length s.rest ≡ suc (length t.rest))
          × (t.values ≡ s.values)
          × (contains keys key ≡ false))
        (expect (not (contains keys key)) (pass b':' s))
expect-pass-Ends keys key s =
    Ends-expect (not (contains keys key))
      λ new. Ends-map (pass-Ends b':' s) λ t (passed, kept). reads (passed, kept, not-eq-true new)

-- A container whose last element is read and closed.
Takes-last :
    {depth n h : ℕ} {s colon valued : Reader}
    → length colon.rest ≤ length s.rest
    → colon.values ≡ s.values
    → Takes (suc max_depth) depth n h colon valued
    → length (advance (skip valued).rest) ≤ length (skip valued).rest
    → Takes
        (suc max_depth)
        depth
        (n + 0)
        (larger h 0)
        s
        (record { rest = advance (skip valued).rest; values = valued.values })
Takes-last {depth} {n} {h} {s} {colon} {valued} fewer tally first closed = record {
  shorter = omega (arith, first.shorter, length-skip valued);
  counted = omega (arith, first.counted);
  within = first.within;
  shallow = add-larger depth h 0 65 (omega (arith, first.shallow)) (omega (arith, first.shallow));
}

-- An element, a comma and the elements behind it.
Takes-cons :
    {depth n h m k : ℕ} {s colon valued next last : Reader}
    → length colon.rest ≤ length s.rest
    → colon.values ≡ s.values
    → Takes (suc max_depth) depth n h colon valued
    → length (skip valued).rest ≡ suc (length next.rest)
    → next.values ≡ (skip valued).values
    → Takes (suc max_depth) depth m k next last
    → Takes (suc max_depth) depth (n + m) (larger h k) s last
Takes-cons {depth} {n} {h} {m} {k} {s} {colon} {valued} fewer tally first comma counts others =
    record {
      shorter = omega (arith, first.shorter, others.shorter, length-skip valued);
      counted = omega (arith, first.counted, others.counted, values-skip valued);
      within = others.within;
      shallow = add-larger depth h k 65 (omega (arith, first.shallow)) others.shallow;
    }

module _ (host : Host) (literals : Bool) where
  abbrev pub ValueTaken : ℕ → Reader → Value host.Number × Reader → Type 0
  ValueTaken depth s (value, t) =
      Takes (suc max_depth) depth (size value) (height value) s t × IsStrict host literals value

  abbrev ItemsTaken : ℕ → Reader → Items host.Number × Reader → Type 0
  ItemsTaken depth s (items, t) =
      Takes (suc max_depth) depth (items_size items) (items_height items) s t
      × ItemsStrict host literals items

  abbrev FieldsTaken : ℕ → List (List ℕ) → Reader → Fields host.Number × Reader → Type 0
  FieldsTaken depth keys s (fields, t) =
      Takes (suc max_depth) depth (fields_size fields) (fields_height fields) s t
      × FieldsStrict host literals fields
      × Avoids keys fields

  mutual
    unfolding read_value size height IsStrict keys_of

    pub read_value-Ends :
        (fuel depth : ℕ) (s : Reader)
        → 3 * length s.rest < fuel
        → Ends (ValueTaken depth s) (read_value host literals fuel depth s)
    read_value-Ends zero depth s h = absurd (omega arith)
    read_value-Ends (suc fuel) depth s h =
        let counted = skip (record { rest = s.rest; values = suc s.values }) in
        let within = length-skip (record { rest = s.rest; values = suc s.values }) in
        let tally = values-skip (record { rest = s.rest; values = suc s.values }) in
        Ends-split (exceeds depth s) (λ _. refuses)
          λ e.
            let (deep, many) = within_limits depth s e in
            Ends-split (starts b'"' counted.rest)
              (λ _. Ends-then (read_string-Ends host counted) λ (value, t) (short, same, w). reads (
                record {
                  shorter = omega arith;
                  counted = omega arith;
                  within = omega arith;
                  shallow = omega arith;
                },
                w,
              ))
              λ _.
                Ends-split (starts b'{' counted.rest)
                  (λ at_open.
                    Ends-then
                      (read_object-Ends fuel (suc depth) counted
                        (length-advance-starts b'{' counted.rest at_open) (omega arith)
                        (omega arith) (omega arith))
                      λ (fields, t) (taken, strict, avoids). reads (
                        record {
                          shorter = omega (arith, taken.shorter);
                          counted = omega (arith, taken.counted);
                          within = taken.within;
                          shallow = omega (arith, taken.shallow);
                        },
                        strict,
                      ))
                  λ _.
                    Ends-split (starts b'[' counted.rest)
                      (λ at_open.
                        Ends-then
                          (read_array-Ends fuel (suc depth) counted
                            (length-advance-starts b'[' counted.rest at_open) (omega arith)
                            (omega arith) (omega arith))
                          λ (items, t) (taken, strict). reads (
                            record {
                              shorter = omega (arith, taken.shorter);
                              counted = omega (arith, taken.counted);
                              within = taken.within;
                              shallow = omega (arith, taken.shallow);
                            },
                            strict,
                          ))
                      λ _.
                        Ends-map (read_scalar-Ends host literals counted)
                          λ (value, t) (short, same, one, flat, strict). reads (
                            record {
                              shorter = omega arith;
                              counted = omega arith;
                              within = omega arith;
                              shallow = omega arith;
                            },
                            strict,
                          )

    read_object-Ends :
        (fuel depth : ℕ) (s : Reader)
        → length s.rest ≡ suc (length (advance s.rest))
        → 3 * length s.rest ≤ fuel
        → depth ≤ suc max_depth
        → s.values ≤ max_values
        → Ends (FieldsTaken depth [] s) (read_object host literals fuel depth s)
    read_object-Ends zero depth s some_left h deep within = absurd (omega arith)
    read_object-Ends (suc fuel) depth s some_left h deep within =
        let inner : Reader = record { rest = advance s.rest; values = s.values } in
        let fewer = length-skip inner in
        let tally = values-skip inner in
        Ends-split (starts b'}' (skip inner).rest)
          (λ _. reads (
            record {
              shorter = omega (arith, length-advance (skip inner).rest);
              counted = omega arith;
              within = within;
              shallow = omega arith;
            },
            tt,
            tt,
          ))
          (λ _.
            Ends-map (read_members-Ends fuel depth [] (skip inner) (omega arith) deep (omega arith))
              λ (trees, t) (taken, stricts, avoids). reads (
                record {
                  shorter = omega (arith, taken.shorter);
                  counted = omega (arith, taken.counted);
                  within = taken.within;
                  shallow = taken.shallow;
                },
                stricts,
                avoids,
              ))

    read_members-Ends :
        (fuel depth : ℕ) (keys : List (List ℕ)) (s : Reader)
        → 3 * length s.rest + 1 < fuel
        → depth ≤ suc max_depth
        → s.values ≤ max_values
        → Ends (FieldsTaken depth keys s) (read_members host literals fuel depth keys s)
    read_members-Ends zero depth keys s h deep within = absurd (omega arith)
    read_members-Ends (suc fuel) depth keys s h deep within =
        Ends-then (Ends-expect (starts b'"' (skip s).rest) λ _. read_string-Ends host (skip s))
          λ (key, named) (short, same, w).
            Ends-then (expect-pass-Ends keys key (skip named)) λ colon (passed, kept, new).
              Ends-then
                (read_value-Ends fuel depth colon (omega (arith, length-skip s, length-skip named)))
                λ (value, valued) (first, strict).
                  let before : length colon.rest ≤ length s.rest =
                    omega (arith, length-skip s, length-skip named) in
                  let tally : colon.values ≡ s.values =
                    omega (arith, values-skip s, values-skip named) in
                  Ends-split (starts b'}' (skip valued).rest)
                    (λ _. reads (
                      Takes-last before tally first (length-advance (skip valued).rest),
                      (w, refl, strict, tt),
                      (new, tt),
                    ))
                    λ _. Ends-then (pass-Ends b',' (skip valued)) λ next (comma, counts).
                      Ends-then
                        (read_members-Ends fuel depth (key ∷ keys) next
                          (omega (arith, length-skip valued, first.shorter)) deep
                          (omega (arith, values-skip valued, first.within)))
                        λ (fields, last) (others, stricts, avoids).
                          let (apart, avoided) = All-contains keys (keys_of fields) key avoids in
                          reads (
                            Takes-cons before tally first comma counts others,
                            (w, apart, strict, stricts),
                            (new, avoided),
                          )

    read_array-Ends :
        (fuel depth : ℕ) (s : Reader)
        → length s.rest ≡ suc (length (advance s.rest))
        → 3 * length s.rest ≤ fuel
        → depth ≤ suc max_depth
        → s.values ≤ max_values
        → Ends (ItemsTaken depth s) (read_array host literals fuel depth s)
    read_array-Ends zero depth s some_left h deep within = absurd (omega arith)
    read_array-Ends (suc fuel) depth s some_left h deep within =
        let inner : Reader = record { rest = advance s.rest; values = s.values } in
        let fewer = length-skip inner in
        let tally = values-skip inner in
        Ends-split (starts b']' (skip inner).rest)
          (λ _. reads (
            record {
              shorter = omega (arith, length-advance (skip inner).rest);
              counted = omega arith;
              within = within;
              shallow = omega arith;
            },
            tt,
          ))
          (λ _.
            Ends-map (read_elements-Ends fuel depth (skip inner) (omega arith) deep (omega arith))
              λ (trees, t) (taken, others). reads (
                record {
                  shorter = omega (arith, taken.shorter);
                  counted = omega (arith, taken.counted);
                  within = taken.within;
                  shallow = taken.shallow;
                },
                others,
              ))

    read_elements-Ends :
        (fuel depth : ℕ) (s : Reader)
        → 3 * length s.rest + 1 < fuel
        → depth ≤ suc max_depth
        → s.values ≤ max_values
        → Ends (ItemsTaken depth s) (read_elements host literals fuel depth s)
    read_elements-Ends zero depth s h deep within = absurd (omega arith)
    read_elements-Ends (suc fuel) depth s h deep within =
        Ends-then (read_value-Ends fuel depth s (omega arith)) λ (value, valued) (first, strict).
          Ends-split (starts b']' (skip valued).rest)
            (λ _. reads (
              Takes-last (omega arith) refl first (length-advance (skip valued).rest),
              (strict, tt),
            ))
            λ _. Ends-then (pass-Ends b',' (skip valued)) λ next (comma, counts).
              Ends-then
                (read_elements-Ends fuel depth next
                  (omega (arith, length-skip valued, first.shorter)) deep
                  (omega (arith, values-skip valued, first.within)))
                λ (items, last) (others, stricts).
                  reads (Takes-cons (omega arith) refl first comma counts others, (strict, stricts))
