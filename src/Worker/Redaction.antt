-- ===== src/Worker/Redaction.antt =====
-- internal/worker/worker.go, `processBatch`: what reaches the log.
use usage_billing.Prelude.{
  Bytes, codes, same, same_iff, Bool, Bool-cases, true, false, Option, none, some, List, [], ◌∷◌,
  All, All-append, if◌then◌else◌, ◌≡◌, ◌⊎◌, inl, inr, refl,
}
use usage_billing.Errors.{Error}
use usage_billing.RequestId.{for_log}
use usage_billing.RequestId.Laws.{IsRequestId, for_log_bounded}
use usage_billing.Billing.{ProcessingEvent}
use usage_billing.Worker.Stats.{is_set}
use usage_billing.Worker.Logging.{
  LogLine, unconfirmed, processed, failed, outcome_line, log_event, log_batch,
}

-- A line of a batch that ended with that error, or well: it names a request by 32 hexadecimal digits,
-- and it states an outcome only if the batch ended well.
abbrev pub IsSafe : Option Error → LogLine → Type 0
IsSafe e (unconfirmed id) = IsRequestId id × (is_set e ≡ true)
IsSafe e (processed id generation) = IsRequestId id × (is_set e ≡ false)
IsSafe e (failed id outcome failures generation) =
    IsRequestId id
    × (is_set e ≡ false)
    × ((outcome ≡ codes "retry_scheduled") ⊎ (outcome ≡ codes "quarantined"))

either_lines :
    (e : Option Error) (b : Bool) (xs ys : List LogLine)
    → All (IsSafe e) xs
    → (b ≡ false → All (IsSafe e) ys)
    → All (IsSafe e) (if b then xs else ys)
either_lines e true xs ys p q = p
either_lines e false xs ys p q = q refl

outcome_line-IsSafe :
    (id : Bytes) (event : ProcessingEvent)
    → IsRequestId id
    → All (IsSafe none) (outcome_line id event)
outcome_line-IsSafe id event h = elim (Bool-cases (same event.outcome (codes "processed"))) [
  | inl done ↦ rw done ((h, refl), tt)
  | inr other ↦ elim (Bool-cases (same event.outcome (codes "retry_scheduled"))) [
    | inl again ↦
        rw (other, again)
          ((h, refl, inl ((same_iff event.outcome (codes "retry_scheduled")).0 again)), tt)
    | inr not_again ↦ elim (Bool-cases (same event.outcome (codes "quarantined"))) [
      | inl stuck ↦
          rw (other, not_again, stuck)
            ((h, refl, inr ((same_iff event.outcome (codes "quarantined")).0 stuck)), tt)
      | inr unknown ↦ rw (other, not_again, unknown) tt
    ]
  ]
]

named :
    (e : Option Error) (id : Bytes) (lines : List LogLine)
    → (id ≡ []) ⊎ IsRequestId id
    → (IsRequestId id → All (IsSafe e) lines)
    → All (IsSafe e) (if same id [] then [] else lines)
unfolding same
named e id lines (inl empty) k = rw empty tt
named e id lines (inr hex) k = either_lines e (same id []) [] lines tt (λ _. k hex)

log_event-IsSafe : (e : Option Error) (event : ProcessingEvent) → All (IsSafe e) (log_event e event)
unfolding log_event
log_event-IsSafe (some e) event =
    named (some e) (for_log event.request_id) _ (for_log_bounded event.request_id)
      (λ h. ((h, refl), tt))
log_event-IsSafe none event =
    named none (for_log event.request_id) _ (for_log_bounded event.request_id)
      (λ h. outcome_line-IsSafe (for_log event.request_id) event h)

-- Whatever the claimed rows hold, each line that a batch logs of them names a request by 32
-- hexadecimal digits; an outcome is logged only if the batch ended well, and otherwise only that it
-- is unconfirmed.
pub log_batch-IsSafe :
    (e : Option Error) (events : List ProcessingEvent) → All (IsSafe e) (log_batch e events)
unfolding log_batch
log_batch-IsSafe e [] = tt
log_batch-IsSafe e (event ∷ events) =
    All-append (IsSafe e) (log_event e event) (log_batch e events) (log_event-IsSafe e event)
      (log_batch-IsSafe e events)
