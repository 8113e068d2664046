-- ===== src/Http/Routing.antt =====
-- internal/httpapi/httpapi.go: `route`. A route is its index into `routeNames`: unmatched, health,
-- ready, accept, event, summary, metrics, retry.
use usage_billing.Prelude.{ℕ, Bytes, codes, same, ◌&&◌, List, [], ◌∷◌, ◌==◌, if◌then◌else◌}

abbrev pub push : ℕ → List Bytes → List Bytes
push c [] = (c ∷ []) ∷ []
push c (w ∷ ws) = (c ∷ w) ∷ ws

-- `strings.Split(s, "/")`
unfoldable pub split_slash : Bytes → List Bytes
split_slash [] = [] ∷ []
split_slash (c ∷ s) = let rest = split_slash s in if c == b'/' then [] ∷ rest else push c rest

-- The paths of four and of five parts.
unfoldable pub route_parts : List Bytes → ℕ × Bytes
route_parts (a ∷ version ∷ kind ∷ id ∷ []) =
    if same version (codes "v1") && same kind (codes "events") then (4, id) else (0, [])
route_parts (a ∷ version ∷ kind ∷ id ∷ last ∷ []) =
    if same version (codes "v1") && same kind (codes "events") && same last (codes "retry")
    then (7, id)
    else if same version (codes "v1")
        && same kind (codes "customers")
        && same last (codes "summary")
    then (5, id)
    else (0, [])
route_parts _ = (0, [])

unfoldable pub route : Bytes → ℕ × Bytes
unfolding route_parts
route path =
    if same path (codes "/healthz")
    then (1, [])
    else if same path (codes "/readyz")
    then (2, [])
    else if same path (codes "/v1/events")
    then (3, [])
    else if same path (codes "/metrics")
    then (6, [])
    else route_parts (split_slash path)
