-- ===== src/Exposition/Lines.antt =====
-- A text of lines falls into those lines again.
use usage_billing.Prelude.{
  ℕ, zero, suc, ◌+◌, ◌/◌, ◌%◌, ◌<◌, Bytes, Bool-cases, true, List, Bool, not, ◌&&◌, all, [], ◌∷◌,
  ◌++◌, ltb, ◌==◌, ◌≡◌, refl, ap, inl, inr, ◌∙◌, arith,
}
use mathlib.Core.List.{append_assoc}
use usage_billing.Strconv.{emit_digits, format_uint, format_int}
use usage_billing.Prelude.Int.{ℤ, pos, negsuc}
use usage_billing.Exposition.{text_of, lines_of, sample, sample_in}

abbrev pub is_line : Bytes → Bool
is_line s = all (λ c. not (c == b'\n')) s

lines_of-append :
    (l rest : Bytes) → is_line l ≡ true → lines_of (l ++ b'\n' ∷ rest) ≡ l ∷ lines_of rest
unfolding lines_of
lines_of-append [] rest h = refl
lines_of-append (c ∷ l) rest h = elim (Bool-cases (c == b'\n')) [
  | inl newline ↦ absurd (ground arith)
  | inr plain ↦ rw (plain, lines_of-append l rest (rw plain at h)) refl
]

both : (a b : Bool) → (a && b) ≡ true → (a ≡ true) × (b ≡ true)
both a b h = ground arith

lines_of-text_of :
    (lines : List Bytes) → all is_line lines ≡ true → lines_of (text_of lines) ≡ lines
unfolding text_of
lines_of-text_of [] h = unfold lines_of in refl
lines_of-text_of (l ∷ lines) h =
    let (p, q) = both (is_line l) (all is_line lines) h in
    lines_of-append l (text_of lines) p ∙ ap (◌∷◌ l) (lines_of-text_of lines q)

-- With more text behind the lines.
lines_of-append_text :
    (lines : List Bytes) (more : Bytes)
    → all is_line lines ≡ true
    → lines_of (text_of lines ++ more) ≡ lines ++ lines_of more
unfolding text_of
lines_of-append_text [] more h = refl
lines_of-append_text (l ∷ lines) more h =
    let (p, q) = both (is_line l) (all is_line lines) h in
    ap lines_of (append_assoc l (b'\n' ∷ text_of lines) more)
    ∙ lines_of-append l (text_of lines ++ more) p
    ∙ ap (◌∷◌ l) (lines_of-append_text lines more q)

is_line-emit_digits :
    (fuel n : ℕ) (out : Bytes)
    → n < fuel
    → is_line out ≡ true
    → is_line (emit_digits fuel n out) ≡ true
unfolding emit_digits
is_line-emit_digits zero n out b h = absurd (omega arith)
is_line-emit_digits (suc fuel) n out b h = elim (Bool-cases (ltb n 10)) [
  | inl last ↦ rw (last, h) ground arith
  | inr more ↦
      rw more (
        is_line-emit_digits fuel (n / 10) ((b'0' + n % 10) ∷ out) (ground arith)
          (rw h ground arith))
]

pub is_line-format_uint : (n : ℕ) → is_line (format_uint n) ≡ true
unfolding format_uint
is_line-format_uint n = is_line-emit_digits (suc n) n [] (omega arith) refl

pub is_line-format_int : (n : ℤ) → is_line (format_int n) ≡ true
unfolding format_int
is_line-format_int (pos n) = is_line-format_uint n
is_line-format_int (negsuc n) = is_line-format_uint (suc n)

-- A sample of a text of lines is one of its lines.
pub sample-text_of :
    (name : Bytes) (lines : List Bytes)
    → all is_line lines ≡ true
    → sample name (text_of lines) ≡ sample_in name lines
unfolding sample
sample-text_of name lines h = ap (sample_in name) (lines_of-text_of lines h)

pub sample-append_text :
    (name : Bytes) (lines : List Bytes) (more : Bytes)
    → all is_line lines ≡ true
    → sample name (text_of lines ++ more) ≡ sample_in name (lines ++ lines_of more)
unfolding sample
sample-append_text name lines more h = ap (sample_in name) (lines_of-append_text lines more h)
