-- ===== src/Http/Assignments.antt =====
-- internal/httpapi/httpapi.go: what the `switch` of `decodeInput` assigns.
use usage_billing.Prelude.{
  Bytes, codes, same, same_iff, Bool, true, false, Option, none, some, if◌then◌else◌, ◌≡◌, refl, ap,
  arith,
}
use usage_billing.Prelude.Int.{ℤ}
use usage_billing.Billing.{Input}
use usage_billing.Http.Decoding.{Raw, assign, with_text, with_units}

-- The four assignments of the `switch`.
pub data Assigned (key : Bytes) (raw : Raw) (i : Input) : Input → Type 0 where
  sets_event :
      (v : Bytes)
      → key ≡ codes "event_id"
      → raw.as_text ≡ some v
      → Assigned key raw i (record i { event_id = v })
  sets_customer :
      (v : Bytes)
      → key ≡ codes "customer_id"
      → raw.as_text ≡ some v
      → Assigned key raw i (record i { customer_id = v })
  sets_meter :
      (v : Bytes)
      → key ≡ codes "meter"
      → raw.as_text ≡ some v
      → Assigned key raw i (record i { meter = v })
  sets_units :
      (n : ℤ)
      → key ≡ codes "units"
      → raw.as_int64 ≡ some n
      → Assigned key raw i (record i { units = n })

text_inv :
    (set : Bytes → Input) (o : Option Bytes) (i' : Input)
    → with_text set o ≡ some i'
    → (v : Bytes) × (o ≡ some v) × (set v ≡ i')
text_inv set none i' h = absurd (ground arith)
text_inv set (some v) i' h = (v, refl, cc)

units_inv :
    (i : Input) (o : Option ℤ) (i' : Input)
    → with_units i o ≡ some i'
    → (n : ℤ) × (o ≡ some n) × ((record i { units = n }) ≡ i')
units_inv i none i' h = absurd (ground arith)
units_inv i (some n) i' h = (n, refl, cc)

switch :
    (is_null e c m u : Bool) (key : Bytes) (raw : Raw) (i i' : Input)
    → same key (codes "event_id") ≡ e
    → same key (codes "customer_id") ≡ c
    → same key (codes "meter") ≡ m
    → same key (codes "units") ≡ u
    → (if is_null
        then none
        else if e
        then with_text (λ s. record i { event_id = s }) raw.as_text
        else if c
        then with_text (λ s. record i { customer_id = s }) raw.as_text
        else if m
        then with_text (λ s. record i { meter = s }) raw.as_text
        else if u
        then with_units i raw.as_int64
        else none)
      ≡ some i'
    → Assigned key raw i i'
switch true e c m u key raw i i' he hc hm hu h = absurd (ground arith)
switch false true c m u key raw i i' he hc hm hu h =
    let (v, r, k) = text_inv _ raw.as_text i' h in rw (← k) (sets_event v ((same_iff key _).0 he) r)
switch false false true m u key raw i i' he hc hm hu h =
    let (v, r, k) = text_inv _ raw.as_text i' h in
    rw (← k) (sets_customer v ((same_iff key _).0 hc) r)
switch false false false true u key raw i i' he hc hm hu h =
    let (v, r, k) = text_inv _ raw.as_text i' h in rw (← k) (sets_meter v ((same_iff key _).0 hm) r)
switch false false false false true key raw i i' he hc hm hu h =
    let (n, r, k) = units_inv i raw.as_int64 i' h in
    rw (← k) (sets_units n ((same_iff key _).0 hu) r)
switch false false false false false key raw i i' he hc hm hu h = absurd (ground arith)

pub assign_inv :
    (key : Bytes) (raw : Raw) (i i' : Input) → assign key raw i ≡ some i' → Assigned key raw i i'
unfolding assign
assign_inv key raw i i' h =
    switch raw.is_null (same key (codes "event_id")) (same key (codes "customer_id"))
      (same key (codes "meter")) (same key (codes "units")) key raw i i' refl refl refl refl h

clash : {P : Type 0} (key a b : Bytes) → key ≡ a → same a b ≡ false → same key b ≡ true → P
clash key a b k differ y = absurd (ground (arith, ap (λ s. same s b) k))

agree : {P : Type 0} (key a : Bytes) → key ≡ a → same key a ≡ false → P
agree key a k n = absurd (ground (arith, (same_iff key a).1 k))

pub event_sets :
    {key : Bytes} {raw : Raw} {i i' : Input}
    → Assigned key raw i i'
    → same key (codes "event_id") ≡ true
    → raw.as_text ≡ some i'.event_id
unfolding same
event_sets (sets_event v k r) y = r
event_sets (sets_customer v k r) y = clash _ _ _ k refl y
event_sets (sets_meter v k r) y = clash _ _ _ k refl y
event_sets (sets_units n k r) y = clash _ _ _ k refl y

pub event_keeps :
    {key : Bytes} {raw : Raw} {i i' : Input}
    → Assigned key raw i i'
    → same key (codes "event_id") ≡ false
    → i'.event_id ≡ i.event_id
event_keeps (sets_event v k r) n = agree _ _ k n
event_keeps (sets_customer v k r) n = refl
event_keeps (sets_meter v k r) n = refl
event_keeps (sets_units w k r) n = refl

pub customer_sets :
    {key : Bytes} {raw : Raw} {i i' : Input}
    → Assigned key raw i i'
    → same key (codes "customer_id") ≡ true
    → raw.as_text ≡ some i'.customer_id
unfolding same
customer_sets (sets_event v k r) y = clash _ _ _ k refl y
customer_sets (sets_customer v k r) y = r
customer_sets (sets_meter v k r) y = clash _ _ _ k refl y
customer_sets (sets_units v k r) y = clash _ _ _ k refl y

pub customer_keeps :
    {key : Bytes} {raw : Raw} {i i' : Input}
    → Assigned key raw i i'
    → same key (codes "customer_id") ≡ false
    → i'.customer_id ≡ i.customer_id
customer_keeps (sets_event v k r) n = refl
customer_keeps (sets_customer v k r) n = agree _ _ k n
customer_keeps (sets_meter v k r) n = refl
customer_keeps (sets_units v k r) n = refl

pub meter_sets :
    {key : Bytes} {raw : Raw} {i i' : Input}
    → Assigned key raw i i'
    → same key (codes "meter") ≡ true
    → raw.as_text ≡ some i'.meter
unfolding same
meter_sets (sets_event v k r) y = clash _ _ _ k refl y
meter_sets (sets_customer v k r) y = clash _ _ _ k refl y
meter_sets (sets_meter v k r) y = r
meter_sets (sets_units v k r) y = clash _ _ _ k refl y

pub meter_keeps :
    {key : Bytes} {raw : Raw} {i i' : Input}
    → Assigned key raw i i'
    → same key (codes "meter") ≡ false
    → i'.meter ≡ i.meter
meter_keeps (sets_event v k r) n = refl
meter_keeps (sets_customer v k r) n = refl
meter_keeps (sets_meter v k r) n = agree _ _ k n
meter_keeps (sets_units v k r) n = refl

pub units_sets :
    {key : Bytes} {raw : Raw} {i i' : Input}
    → Assigned key raw i i'
    → same key (codes "units") ≡ true
    → raw.as_int64 ≡ some i'.units
unfolding same
units_sets (sets_event v k r) y = clash _ _ _ k refl y
units_sets (sets_customer v k r) y = clash _ _ _ k refl y
units_sets (sets_meter v k r) y = clash _ _ _ k refl y
units_sets (sets_units v k r) y = r

pub units_keeps :
    {key : Bytes} {raw : Raw} {i i' : Input}
    → Assigned key raw i i'
    → same key (codes "units") ≡ false
    → i'.units ≡ i.units
units_keeps (sets_event v k r) n = refl
units_keeps (sets_customer v k r) n = refl
units_keeps (sets_meter v k r) n = refl
units_keeps (sets_units v k r) n = agree _ _ k n
