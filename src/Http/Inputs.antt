-- ===== src/Http/Inputs.antt =====
-- internal/httpapi/httpapi.go: which documents `decodeInput` accepts, and what it makes of them.
use usage_billing.Prelude.{
  ℕ, suc, ◌+◌, Bytes, codes, same, Bool, Bool-cases, true, false, not, ◌&&◌, ◌||◌, Option, none,
  some, List, [], ◌∷◌, length, ◌==◌, if◌then◌else◌, ◌≡◌, inl, inr, refl, ap, arith,
}
use usage_billing.Errors.{ok, err, sentinel, invalid}
use usage_billing.Billing.{Input}
use usage_billing.Http.Members.{Members, values, found, read_members_inv}
use usage_billing.Http.Assignments.{
  Assigned, sets_event, sets_customer, sets_meter, sets_units, assign_inv, event_sets, event_keeps,
  customer_sets, customer_keeps, meter_sets, meter_keeps, units_sets, units_keeps,
}
use usage_billing.Http.Decoding.{
  Token, Raw, Reader, is_seen, read_members, complete, ends, is_delim, zero_input, decode_input,
}

abbrev bit : List Bytes → Bytes → ℕ
bit seen name = if is_seen seen name then 1 else 0

-- How many of the four names were seen.
abbrev bits : List Bytes → ℕ
bits seen =
    bit seen (codes "event_id")
    + bit seen (codes "customer_id")
    + bit seen (codes "meter")
    + bit seen (codes "units")

more :
    (key : Bytes) (seen : List Bytes) {raw : Raw} {i i' : Input}
    → Assigned key raw i i'
    → is_seen seen key ≡ false
    → bits (key ∷ seen) ≡ suc (bits seen)
unfolding same
more key seen (sets_event v k r) fresh = rw (k) (ground (arith, rw (k) at fresh))
more key seen (sets_customer v k r) fresh = rw (k) (ground (arith, rw (k) at fresh))
more key seen (sets_meter v k r) fresh = rw (k) (ground (arith, rw (k) at fresh))
more key seen (sets_units v k r) fresh = rw (k) (ground (arith, rw (k) at fresh))

counted :
    (ms : Members) (seen : List Bytes) (i : Input) (seen' : List Bytes) (i' : Input)
    → read_members ms seen i ≡ some (seen', i')
    → length seen ≡ bits seen
    → (length seen' ≡ bits seen') × (length seen' ≡ length seen + length ms)
unfolding read_members
counted [] seen i seen' i' h n = let e : seen ≡ seen' = cc in rw (← e) (n, omega arith)
counted (m ∷ ms) seen i seen' i' h n =
    let (seen₁, i₁, d, h₁) = read_members_inv m ms seen i (seen', i') h in
    let grown : length seen₁ ≡ suc (length seen) = rw (d.grown) refl in
    let known : bits seen₁ ≡ suc (bits seen) =
      rw (d.grown) (more d.key seen (assign_inv d.key d.raw i i₁ d.assigned) d.fresh) in
    let (balance, total) = counted ms seen₁ i₁ seen' i' h₁ (omega (arith, grown, known, n)) in
    (balance, omega (arith, total, grown))

-- The document's members are the four names, each once, with these values.
pub record IsDocument (members : Members) (input : Input) : Type 0 where
  pub size : length members ≡ 4
  pub event_id :
      (raw : Raw) × (values (codes "event_id") members ≡ raw ∷ [])
      × (raw.as_text ≡ some input.event_id)
  pub customer_id :
      (raw : Raw) × (values (codes "customer_id") members ≡ raw ∷ [])
      × (raw.as_text ≡ some input.customer_id)
  pub meter :
      (raw : Raw) × (values (codes "meter") members ≡ raw ∷ []) × (raw.as_text ≡ some input.meter)
  pub units :
      (raw : Raw) × (values (codes "units") members ≡ raw ∷ []) × (raw.as_int64 ≡ some input.units)

read_members-IsDocument :
    (ms : Members) (seen' : List Bytes) (input : Input)
    → read_members ms [] zero_input ≡ some (seen', input)
    → length seen' ≡ 4
    → IsDocument ms input
read_members-IsDocument ms seen' input h four =
    let (balance, total) = counted ms [] zero_input seen' input h refl in
    record {
      size = omega (arith, total, four);
      event_id =
          found (codes "event_id") (λ j. j.event_id) (λ r. r.as_text)
            (λ k r a b e. event_sets (assign_inv k r a b e))
            (λ k r a b e. event_keeps (assign_inv k r a b e)) ms [] zero_input seen' input h refl
            (ground (arith, balance, four));
      customer_id =
          found (codes "customer_id") (λ j. j.customer_id) (λ r. r.as_text)
            (λ k r a b e. customer_sets (assign_inv k r a b e))
            (λ k r a b e. customer_keeps (assign_inv k r a b e)) ms [] zero_input seen' input h refl
            (ground (arith, balance, four));
      meter =
          found (codes "meter") (λ j. j.meter) (λ r. r.as_text)
            (λ k r a b e. meter_sets (assign_inv k r a b e))
            (λ k r a b e. meter_keeps (assign_inv k r a b e)) ms [] zero_input seen' input h refl
            (ground (arith, balance, four));
      units =
          found (codes "units") (λ j. j.units) (λ r. r.as_int64)
            (λ k r a b e. units_sets (assign_inv k r a b e))
            (λ k r a b e. units_keeps (assign_inv k r a b e)) ms [] zero_input seen' input h refl
            (ground (arith, balance, four));
    }

-- A body that decodes: valid UTF-8, and one object of the four members with nothing behind it.
pub record IsAccepted (reader : Reader) (body : Bytes) (input : Input) : Type 0 where
  pub valid : reader.valid body ≡ true
  pub opening : is_delim b'{' (reader.document body).opening ≡ true
  pub members : IsDocument (reader.document body).members input
  pub closing : ends (reader.document body).closing ≡ true

passes :
    (b : Bool) (i input : Input)
    → (if b then ok i else err (sentinel invalid)) ≡ ok input
    → (b ≡ true) × (i ≡ input)
passes true i input h = (refl, cc)
passes false i input h = absurd (ground arith)

complete_inv :
    (o : Option (List Bytes × Input)) (closing : List Token) (input : Input)
    → complete o closing ≡ ok input
    → (seen : List Bytes) × (o ≡ some (seen, input)) × (length seen ≡ 4) × (ends closing ≡ true)
complete_inv none closing input h = absurd (ground arith)
complete_inv (some (seen, i)) closing input h =
    let (y, e) = passes (ends closing && length seen == 4) i input h in
    (seen, ap (λ j. some (seen, j)) e, ground (arith, y), ground (arith, y))

-- `decodeInput` accepts only valid UTF-8 with one object, in which each of the four names stands once
-- and no other, with a text for an identifier and the meter and an int64 for the units, and these are
-- the fields of the input.
pub decode_input-IsAccepted :
    (reader : Reader) (body : Bytes) (input : Input)
    → decode_input reader body ≡ ok input
    → IsAccepted reader body input
unfolding decode_input
decode_input-IsAccepted reader body input h =
    elim (Bool-cases
      (not (reader.valid body) || not (is_delim b'{' (reader.document body).opening))) [
        | inl y ↦ absurd (ground (arith, y, h))
        | inr n ↦
            let (seen, e, four, closing) = complete_inv _ _ input (rw (n) at h) in
            record {
              valid = ground (arith, n);
              opening = ground (arith, n);
              members = read_members-IsDocument (reader.document body).members seen input e four;
              closing = closing;
            }
      ]
