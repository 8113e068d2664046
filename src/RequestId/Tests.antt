-- ===== src/RequestId/Tests.antt =====
-- A concrete identifier.
use usage_billing.Prelude.{codes, [], ◌≡◌, ◌⊎◌}
use usage_billing.RequestId.{for_log}
use usage_billing.RequestId.Laws.{IsRequestId, for_log_bounded}

for_log_bounded_example :
    (for_log (codes "0123456789ABCDEF0123456789abcdef") ≡ [])
    ⊎ IsRequestId (for_log (codes "0123456789ABCDEF0123456789abcdef"))
for_log_bounded_example = for_log_bounded (codes "0123456789ABCDEF0123456789abcdef")
