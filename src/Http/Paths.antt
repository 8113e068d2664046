-- ===== src/Http/Paths.antt =====
-- internal/httpapi/httpapi.go: the paths under which an identifier can be addressed.
use usage_billing.Prelude.{Bytes, codes, same, false, [], ◌∷◌, ◌++◌, All, ◌==◌, ◌≡◌, refl, arith}
use usage_billing.Billing.Identifiers.{IsIdByte, IsIdentifier}
use usage_billing.Http.Routing.{split_slash, route_parts, route}

abbrev IsSlashFree : Bytes → Type 0
IsSlashFree = All (λ c. (c == b'/') ≡ false)

split_slash-one : (id : Bytes) → IsSlashFree id → split_slash id ≡ id ∷ []
unfolding split_slash
split_slash-one [] h = refl
split_slash-one (c ∷ id) (p, h) = rw (p, split_slash-one id h) refl

split_slash-append :
    (id rest : Bytes) → IsSlashFree id → split_slash (id ++ b'/' ∷ rest) ≡ id ∷ split_slash rest
unfolding split_slash
split_slash-append [] rest h = refl
split_slash-append (c ∷ id) rest (p, h) = rw (p, split_slash-append id rest h) refl

IsIdByte-slash : (id : Bytes) → All IsIdByte id → IsSlashFree id
IsIdByte-slash [] h = tt
IsIdByte-slash (c ∷ id) (p, h) = (ground arith, IsIdByte-slash id h)

-- Every valid identifier can be addressed: its event, the retry of its event and the summary of a
-- customer of that name are routed to their handlers with exactly that identifier.
pub route-identifier :
    (id : Bytes)
    → IsIdentifier id
    → (route (codes "/v1/events/" ++ id) ≡ (4, id))
      × (route (codes "/v1/events/" ++ id ++ codes "/retry") ≡ (7, id))
      × (route (codes "/v1/customers/" ++ id ++ codes "/summary") ≡ (5, id))
unfolding route split_slash route_parts same
route-identifier id h =
    let free = IsIdByte-slash id h.2 in
    (
      rw (split_slash-one id free) refl,
      rw (split_slash-append id (codes "retry") free) refl,
      rw (split_slash-append id (codes "summary") free) refl,
    )
