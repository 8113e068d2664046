-- ===== src/Billing/Tests.antt =====
-- A service over a repository that holds the events it accepted.
use usage_billing.Prelude.{Bytes, codes, List, [], ◌∷◌, true, none, ◌≡◌, ◌↔◌, inl, refl, arith}
use usage_billing.Prelude.Int.{pos}
use usage_billing.Errors.{ok, err, sentinel, not_found}
use usage_billing.RequestId.{Context, from_context}
use usage_billing.Billing.Types.{Input, Event, Repository}
use usage_billing.Billing.Service.{Service, accept, validate_id}
use usage_billing.Billing.Identifiers.{IsIdentifier, validate_id_iff}
use usage_billing.Billing.Pricing.{AdmitsPriced, accept-AdmitsPriced}

abbrev repo : Repository (List Event)
repo = record {
  accept = λ e s. (ok (e, true), e ∷ s);
  get = λ id s. err (sentinel not_found);
  summary = λ id s. err (sentinel not_found);
  retry = λ id generation s. (err (sentinel not_found), s);
}

abbrev service : Service (List Event)
service = record { repo = repo; rate = pos 100 }

abbrev raw : Bytes
raw = 1 ∷ 35 ∷ 69 ∷ 103 ∷ 137 ∷ 171 ∷ 205 ∷ 239 ∷ 1 ∷ 35 ∷ 69 ∷ 103 ∷ 137 ∷ 171 ∷ 205 ∷ 255 ∷ []

abbrev no_request : Context
no_request = record { value = none }

abbrev input : Input
input = record {
  event_id = codes "e1";
  customer_id = codes "c1";
  meter = codes "api_calls";
  units = pos 7;
}

validate_id_iff_example :
    (validate_id (codes "Order_7-a") ≡ none) ↔ IsIdentifier (codes "Order_7-a")
validate_id_iff_example = validate_id_iff (codes "Order_7-a")

accept-AdmitsPriced_example : AdmitsPriced service input [] (accept service no_request raw input [])
unfolding from_context
accept-AdmitsPriced_example =
    accept-AdmitsPriced service no_request raw input [] refl (inl refl) (omega arith, refl)
