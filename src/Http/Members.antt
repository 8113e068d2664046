-- ===== src/Http/Members.antt =====
-- internal/httpapi/httpapi.go: which documents `decodeInput` accepts.
use usage_billing.Prelude.{
  Bytes, same, same_iff, Bool, Bool-cases, true, false, Option, Option-cases, none, some, List, [],
  ◌∷◌, if◌then◌else◌, ◌≡◌, inl, inr, refl, ap, sym, ◌∙◌, arith,
}
use usage_billing.Billing.{Input}
use usage_billing.Http.Decoding.{
  Token, text, Raw, is_seen, assign, read_member, read_members, pushed,
}

-- The values of the members of that name.
abbrev pub values : Bytes → List (Token × Option Raw) → List Raw
values name [] = []
values name ((text key, some raw) ∷ members) =
    if same key name then raw ∷ values name members else values name members
values name (_ ∷ members) = values name members

-- One member was read: its key is a new text, and its value was assigned.
pub record IsRead (m : Token × Option Raw) (seen : List Bytes) (input : Input) (seen' : List Bytes)
    (input' : Input) : Type 0 where
  pub key : Bytes
  pub raw : Raw
  pub member : m ≡ (text key, some raw)
  pub fresh : is_seen seen key ≡ false
  pub assigned : assign key raw input ≡ some input'
  pub grown : seen' ≡ key ∷ seen

kept :
    (b : Bool) (o : Option Input) (key : Bytes) (seen seen' : List Bytes) (input' : Input)
    → (if b then none else pushed key seen o) ≡ some (seen', input')
    → (b ≡ false) × (o ≡ some input') × (seen' ≡ key ∷ seen)
kept true o key seen seen' input' h = absurd (ground arith)
kept false none key seen seen' input' h = absurd (ground arith)
kept false (some next) key seen seen' input' h = (refl, cc, cc)

read_member_inv :
    (m : Token × Option Raw) (seen : List Bytes) (input : Input) (seen' : List Bytes)
    (input' : Input)
    → read_member m seen input ≡ some (seen', input')
    → IsRead m seen input seen' input'
read_member_inv (text key, some raw) seen input seen' input' h =
    let (fresh, assigned, grown) =
      kept (is_seen seen key) (assign key raw input) key seen seen' input' h in
    record {
      key = key;
      raw = raw;
      member = refl;
      fresh = fresh;
      assigned = assigned;
      grown = grown;
    }
read_member_inv _ seen input seen' input' h = absurd (ground arith)

abbrev pub Members : Type 0
Members = List (Token × Option Raw)

pub read_members_inv :
    (m : Token × Option Raw) (ms : Members) (seen : List Bytes) (input : Input)
    (r : List Bytes × Input)
    → read_members (m ∷ ms) seen input ≡ some r
    → (seen' : List Bytes) × (input' : Input) × IsRead m seen input seen' input'
      × (read_members ms seen' input' ≡ some r)
unfolding read_members
read_members_inv m ms seen input r h = elim (Option-cases (read_member m seen input)) [
  | inl y ↦ absurd (ground (arith, y, h))
  | inr ((seen', input'), y) ↦
      (seen', input', read_member_inv m seen input seen' input' y, rw (read_members, y) at h)
]

module _ (name : Bytes) {m : Token × Option Raw} {seen seen' : List Bytes} {i i' : Input} where
  passed :
      (ms : Members) (d : IsRead m seen i seen' i')
      → same d.key name ≡ false
      → values name (m ∷ ms) ≡ values name ms
  passed ms d other = rw (d.member, other) refl

  taken :
      (ms : Members) (d : IsRead m seen i seen' i')
      → same d.key name ≡ true
      → values name (m ∷ ms) ≡ d.raw ∷ values name ms
  taken ms d y = rw (d.member, y) refl

  other_key : (d : IsRead m seen i seen' i') → is_seen seen name ≡ true → same d.key name ≡ false
  other_key d s = elim (Bool-cases (same d.key name)) [
    | inl y ↦
        let e : d.key ≡ name = (same_iff d.key name).0 y in
        absurd (ground (arith, s, d.fresh, ap (is_seen seen) e))
    | inr n ↦ n
  ]

module _ {V : Type 0} (name : Bytes) (get : Input → V) (read : Raw → Option V)
    (sets : (key : Bytes) (raw : Raw) (i i' : Input)
      → assign key raw i ≡ some i'
      → same key name ≡ true
      → read raw ≡ some (get i'))
    (keeps : (key : Bytes) (raw : Raw) (i i' : Input)
      → assign key raw i ≡ some i'
      → same key name ≡ false
      → get i' ≡ get i) where
  later :
      (ms : Members) (seen : List Bytes) (i : Input) (seen' : List Bytes) (i' : Input)
      → read_members ms seen i ≡ some (seen', i')
      → is_seen seen name ≡ true
      → (values name ms ≡ []) × (get i' ≡ get i)
  unfolding read_members
  later [] seen i seen' i' h s = (refl, ap get cc)
  later (m ∷ ms) seen i seen' i' h s =
      let (seen₁, i₁, d, h₁) = read_members_inv m ms seen i (seen', i') h in
      let other = other_key name d s in
      let (none_left, same_get) =
        later ms seen₁ i₁ seen' i' h₁ (rw (d.grown) (ground (arith, s))) in
      (passed name ms d other ∙ none_left, same_get ∙ keeps d.key d.raw i i₁ d.assigned other)

  pub found :
      (ms : Members) (seen : List Bytes) (i : Input) (seen' : List Bytes) (i' : Input)
      → read_members ms seen i ≡ some (seen', i')
      → is_seen seen name ≡ false
      → is_seen seen' name ≡ true
      → (raw : Raw) × (values name ms ≡ raw ∷ []) × (read raw ≡ some (get i'))
  unfolding read_members
  found [] seen i seen' i' h s t =
      let e : seen ≡ seen' = cc in absurd (ground (arith, s, t, ap (λ l. is_seen l name) e))
  found (m ∷ ms) seen i seen' i' h s t =
      let (seen₁, i₁, d, h₁) = read_members_inv m ms seen i (seen', i') h in
      elim (Bool-cases (same d.key name)) [
        | inl y ↦
            let (none_left, same_get) =
              later ms seen₁ i₁ seen' i' h₁ (rw (d.grown) (ground (arith, y))) in
            (
              d.raw,
              taken name ms d y ∙ ap (◌∷◌ d.raw) none_left,
              sets d.key d.raw i i₁ d.assigned y ∙ ap some (sym same_get),
            )
        | inr n ↦
            let (raw, one, value) =
              found ms seen₁ i₁ seen' i' h₁ (rw (d.grown) (ground (arith, s, n))) t in
            (raw, passed name ms d n ∙ one, value)
      ]
