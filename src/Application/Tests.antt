-- ===== src/Application/Tests.antt =====
-- One request and one batch from the empty tables, a server that stops, and one that does not start.
use usage_billing.Prelude.{
  Bytes, codes, same, true, false, none, some, List, [], ◌∷◌, All, ◌≡◌, ◌⊎◌, ◌↔◌, refl, arith,
}
use usage_billing.Prelude.Int.{pos, div64}
use usage_billing.Errors.{sentinel, server_closed, canceled, ok}
use usage_billing.RequestId.{new, with_context}
use usage_billing.Billing.{Input, Event, validate_id, validate_bytes, priced, request_id_for}
use usage_billing.Billing.Service.{accept}
use usage_billing.Billing.Pricing.{IsEntropy}
use usage_billing.Http.{decode_input, read_members, assign}
use usage_billing.Http.Handler.{event_body, serve_http, background, folds_to, cut_space, authorized}
use usage_billing.Http.Tests.{world, handler, raw}
use usage_billing.Postgres.{has, Db, Server, usage_row, usage_checks, process_batch_with_results}
use usage_billing.Postgres.Invariant.{IsConsistent}
use usage_billing.Postgres.Store.{Store}
use usage_billing.Postgres.System.{empty}
use usage_billing.Postgres.System.Steps.{empty-IsConsistent}
use usage_billing.Postgres.System.Progress.{healthy}
use usage_billing.Config.{Settings, load_config}
use usage_billing.Config.Tests.{env}
use usage_billing.Application.{repository, service_over, History, here, next, requesting, working}
use usage_billing.Application.Charges.{accept-usage_checks}
use usage_billing.Application.Arrivals.{IsBrought, arrivals}
use usage_billing.Application.Effects.{traced}
use usage_billing.Application.Served.{IsCharged, served-IsConsistent}
use usage_billing.Application.Accepting.{
  IsChargeable, IsOpen, charged, admitted, stored, post, serve_http-accepted,
}
use usage_billing.Application.Shutdown.{Ending, serve, signalled}
use usage_billing.Application.Shutdown.Joins.{IsJoined, IsClean, serve-IsJoined}
use usage_billing.Application.Starting.{Outside, main}
use usage_billing.Application.Starting.Exits.{IsUp, main_iff}

abbrev store : Store
store = record { max_pending = 2 }

abbrev srv : Server
srv = healthy (λ n. n) (λ id. false) (λ a b. true)

abbrev credentials : List Bytes
credentials = codes "Bearer 0123456789abcdef0123456789abcdef" ∷ []

abbrev input : Input
input = record {
  event_id = codes "e1";
  customer_id = codes "c1";
  meter = codes "api_calls";
  units = pos 7;
}

raw-IsEntropy : IsEntropy raw
raw-IsEntropy = ground arith

abbrev served_db : Db
served_db =
    (serve_http world handler (service_over srv store (pos 100)) raw (post credentials (codes "{}"))
      empty).2

abbrev history : History store (pos 100) empty (process_batch_with_results srv (pos 10) served_db).1
history =
    next
      (next here (
        requesting srv world raw (post credentials (codes "{}")) handler empty raw-IsEntropy
          raw-IsEntropy))
      (working srv (pos 10) served_db)

served-IsConsistent_example :
    IsConsistent 2 (process_batch_with_results srv (pos 10) served_db).1
    × All
        (λ u. IsCharged (pos 100) u × IsBrought (arrivals history) u)
        (process_batch_with_results srv (pos 10) served_db).1.usage
served-IsConsistent_example =
    served-IsConsistent store (pos 100) (process_batch_with_results srv (pos 10) served_db).1 refl
      history

abbrev accepted : Event
accepted =
    charged (λ n. n) (λ id. false) (λ a b. true) store (pos 100) (with_context background (new raw))
      raw input

opened : IsOpen store (codes "e1") empty
unfolding has
opened = record { consistent = empty-IsConsistent 2; fresh = refl; room = omega arith }

chargeable : IsChargeable (pos 100) input
unfolding validate_id validate_bytes same div64
chargeable = record {
  positive = refl;
  event_id = refl;
  customer_id = refl;
  meter = refl;
  units = refl;
  fits = refl;
}

accept-usage_checks_example :
    let svc = service_over srv store (pos 100) in
    let ctx = with_context background (new raw) in
    let event = priced (pos 100) (request_id_for ctx raw) input in
    ((accept svc ctx raw input empty).1 ≡ empty)
    ⊎ (((accept svc ctx raw input empty).1 ≡ (svc.repo.accept event empty).1)
        × (usage_checks (usage_row event 0) ≡ true))
accept-usage_checks_example =
    accept-usage_checks (service_over srv store (pos 100)) (with_context background (new raw)) raw
      input empty 0 refl (traced raw) raw-IsEntropy

serve_http-accepted_example :
    let db' = admitted (λ n. n) (λ id. false) (λ a b. true) store (pos 100) accepted empty in
    let event = stored (λ n. n) (λ id. false) (λ a b. true) store (pos 100) accepted empty in
    let result =
      serve_http world handler
        (service_over srv store (pos 100))
        raw
        (post credentials (codes "{}"))
        empty in
    (result.0.status ≡ 202) × (result.0.payload ≡ event_body event) × (result.2 ≡ db')
unfolding authorized cut_space folds_to same decode_input read_members assign
serve_http-accepted_example =
    serve_http-accepted (λ n. n) (λ id. false) (λ a b. true) store (pos 100) world handler raw
      credentials (codes "{}") input empty refl refl refl raw-IsEntropy (λ p. refl) chargeable
      opened

abbrev timed_out : Ending
timed_out = record {
  first = signalled;
  shutdown = some (sentinel canceled);
  close = none;
  http = some (sentinel server_closed);
  worker = some (sentinel canceled);
}

abbrev ended : Ending
ended = record timed_out { shutdown = none }

serve-IsJoined_example : IsJoined signalled (serve timed_out).1
serve-IsJoined_example = serve-IsJoined timed_out

abbrev outside : Outside
outside = record { parses = true; has_pool = true; answers = true; listens = true }

main_iff_example :
    (main (repository srv) (λ s. s) env outside ended ≡ 0)
    ↔ ((cfg : Settings) × (load_config env ≡ ok cfg) × IsUp outside × IsClean ended)
main_iff_example = main_iff (repository srv) (λ s. s) env outside ended
