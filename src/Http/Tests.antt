-- ===== src/Http/Tests.antt =====
-- Requests to a service over a repository that holds the events it accepted.
use usage_billing.Prelude.{
  same, All, ◌+◌, ◌*◌, ◌/◌, ◌<◌, Bytes, codes, List, [], ◌∷◌, ◌++◌, true, false, none, some, ◌≡◌,
  ◌⊎◌, refl, arith,
}
use usage_billing.Prelude.Int.{pos}
use usage_billing.Errors.{ok, err, sentinel, not_found}
use usage_billing.RequestId.{new, with_context}
use usage_billing.Billing.{Event, Repository}
use usage_billing.Billing.Service.{Service}
use usage_billing.Http.Routing.{route}
use usage_billing.Http.Decoding.{
  delim, text, Raw, Reader, decode_retry, decode_input, read_members, assign,
}
use usage_billing.Http.Handler.{Handler, Request, World, serve, serve_http, background}
use usage_billing.Http.Guards.{Changes, serve_http-Changes}
use usage_billing.Http.Bounds.{serve-in_range}
use usage_billing.Http.Generations.{generation_tokens, decode_retry-generation_tokens}
use usage_billing.Http.Metrics.{metrics_text}
use usage_billing.Http.Scrape.{ShowsCounter, routes, classes, metrics_text-ShowsCounter}
use usage_billing.Http.Inputs.{IsAccepted, decode_input-IsAccepted}
use usage_billing.Http.Paths.{route-identifier}

abbrev repo : Repository (List Event)
repo = record {
  accept = λ e s. (ok (e, true), e ∷ s);
  get = λ id s. err (sentinel not_found);
  summary = λ id s. err (sentinel not_found);
  retry = λ id generation s. (err (sentinel not_found), s);
}

abbrev service : Service (List Event)
service = record { repo = repo; rate = pos 100 }

abbrev raw_text : Bytes → Raw
raw_text s = record { is_null = false; as_text = some s; as_int64 = none }

-- A decoder that finds the same object, or the generation 7, in every body.
abbrev pub reader : Reader
reader = record {
  valid = λ s. true;
  tokens = λ s. generation_tokens (pos 7);
  document = λ s. record {
    opening = delim b'{';
    members =
        (text (codes "event_id"), some (raw_text (codes "e1")))
        ∷ (text (codes "customer_id"), some (raw_text (codes "c1")))
        ∷ (text (codes "meter"), some (raw_text (codes "api_calls")))
        ∷ (
          text (codes "units"),
          some (record { is_null = false; as_text = none; as_int64 = some (pos 7) }),
        )
        ∷ [];
    closing = delim b'}' ∷ [];
  };
}

abbrev pub raw : Bytes
raw = 1 ∷ 35 ∷ 69 ∷ 103 ∷ 137 ∷ 171 ∷ 205 ∷ 239 ∷ 1 ∷ 35 ∷ 69 ∷ 103 ∷ 137 ∷ 171 ∷ 205 ∷ 255 ∷ []

abbrev pub world : World
world = record {
  hash = λ s. s;
  reader = reader;
  encodes = λ p. true;
  is_ready = true;
  entropy = raw;
  operational = [];
}

abbrev pub handler : Handler
handler = record {
  token_hash = codes "0123456789abcdef0123456789abcdef";
  requests = λ index class. 0;
}

abbrev post : Request
post = record {
  method = codes "POST";
  path = codes "/v1/events";
  authorization = codes "bearer 0123456789abcdef0123456789abcdef" ∷ [];
  media_type = some (codes "application/json");
  body = some (codes "{}");
}

serve_http-Changes_example :
    let s' = (serve_http world handler service raw post []).2 in
    (s' ≡ [])
    ⊎ Changes world handler service
        (with_context background (new raw))
        post
        (route post.path).0
        (route post.path).1
        []
        s'
serve_http-Changes_example = serve_http-Changes world handler service raw post []

serve-in_range_example :
    ((route post.path).0 < 8)
    × ((serve world handler service background post
            (route post.path).0
            (route post.path).1
            []).0.status
          / 100
        < 6)
serve-in_range_example = serve-in_range world handler service background post []

route-identifier_example :
    (route (codes "/v1/events/" ++ codes "e1") ≡ (4, codes "e1"))
    × (route (codes "/v1/events/" ++ codes "e1" ++ codes "/retry") ≡ (7, codes "e1"))
    × (route (codes "/v1/customers/" ++ codes "e1" ++ codes "/summary") ≡ (5, codes "e1"))
route-identifier_example = route-identifier (codes "e1") (omega arith)

decode_retry-generation_tokens_example : decode_retry reader [] ≡ ok (pos 7)
decode_retry-generation_tokens_example =
    decode_retry-generation_tokens reader [] (pos 7) refl refl (omega arith) (omega arith)

metrics_text-ShowsCounter_example :
    All
      (λ r.
        All
          (ShowsCounter (λ i c. i * 10 + c) (metrics_text (λ i c. i * 10 + c) (codes "up 1")) r)
          classes)
      routes
metrics_text-ShowsCounter_example = metrics_text-ShowsCounter (λ i c. i * 10 + c) (codes "up 1")

decode_input-IsAccepted_example : IsAccepted reader [] (record {
  event_id = codes "e1";
  customer_id = codes "c1";
  meter = codes "api_calls";
  units = pos 7;
})
unfolding decode_input read_members assign same
decode_input-IsAccepted_example = decode_input-IsAccepted reader [] _ refl
