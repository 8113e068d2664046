-- ===== src/Config/Starting.antt =====
-- cmd/usage-billing/main.go: the constructors that `run` calls on a loaded configuration.
use usage_billing.Prelude.{
  String, Bytes, same, Bool, true, false, not, ◌||◌, Option, none, some, [], ◌∷◌, length, all, ltb,
  if◌then◌else◌, ◌≡◌, refl, ap, sym, ◌∙◌, arith,
}
use usage_billing.Prelude.Int.{ℤ, pos, pos_part, leb_ℤ, ltb_ℤ}
use usage_billing.Errors.{message, Result, ok, err}
use usage_billing.Billing.{Repository, new_service}
use usage_billing.Postgres.Store.{new_with_queue_limit}
use usage_billing.Worker.{is_invalid}
use usage_billing.Http.Handler.{new_handler, is_refused, any_byte}
use usage_billing.Config.{
  Environment, Settings, and_then, refuse_if, checked, setting, is_visible, within, load_config,
}

and_then-ok :
    {A B : Type 0} {m : Result A} {f : A → Result B} {b : B}
    → and_then m f ≡ ok b
    → (a : A) × (m ≡ ok a) × (f a ≡ ok b)
unfolding and_then
and_then-ok {m = ok a} {f} h = (a, refl, h)
and_then-ok {m = err e} {f} h = cc

refuse_if-ok : (b : Bool) (text : String) {u : Unit {0}} → refuse_if b text ≡ ok u → b ≡ false
refuse_if-ok true text h = cc
refuse_if-ok false text h = refl

ok_inv : {A : Type 0} (a b : A) → (◌≡◌ {A = Result A} (ok a) (ok b)) → a ≡ b
ok_inv a b h = cc

good_of : (good : ℤ → Bool) (m n : ℤ) → good m ≡ true → m ≡ n → good n ≡ true
good_of good m n g p = ap good (sym p) ∙ g

kept-ok :
    (b : Bool) (good : ℤ → Bool) (m n : ℤ) (text : String)
    → good m ≡ b
    → (if b then ok m else err (message text)) ≡ ok n
    → good n ≡ true
kept-ok true good m n text g h = good_of good m n g (ok_inv m n h)
kept-ok false good m n text g h = cc

checked-ok :
    (o : Option ℤ) (good : ℤ → Bool) (text : String) (n : ℤ)
    → checked o good text ≡ ok n
    → good n ≡ true
checked-ok none good text n h = cc
checked-ok (some m) good text n h = kept-ok (good m) good m n text refl h

chosen-ok :
    (b : Bool) (o : Option ℤ) (good : ℤ → Bool) (text : String) (default n : ℤ)
    → good default ≡ true
    → (if b then ok default else checked o good text) ≡ ok n
    → good n ≡ true
chosen-ok true o good text default n d h = good_of good default n d (ok_inv default n h)
chosen-ok false o good text default n d h = checked-ok o good text n h

setting-ok :
    (value : Bytes) (parse : Bytes → Option ℤ) (good : ℤ → Bool) (text : String) (default n : ℤ)
    → good default ≡ true
    → setting value parse good text default ≡ ok n
    → good n ≡ true
unfolding setting
setting-ok value parse good text default n d h =
    chosen-ok (same value []) (parse value) good text default n d h

-- Every constructor that `run` calls on the settings succeeds.
pub record Starts {S : Type 0} (repo : Repository S) (hash : Bytes → Bytes) (cfg : Settings)
    : Type 0 where
  pub store :
      new_with_queue_limit true cfg.max_pending_events
      ≡ ok (record { max_pending = pos_part cfg.max_pending_events })
  pub service :
      new_service (some repo) cfg.rate_micros ≡ ok (record { repo = repo; rate = cfg.rate_micros })
  pub worker :
      is_invalid (record {
        has_processor = true;
        has_logger = true;
        interval = cfg.worker_interval;
        batch = cfg.worker_batch;
      })
      ≡ false
  pub handler :
      new_handler hash true cfg.token (true ∷ [])
      ≡ ok (record { token_hash = hash cfg.token; requests = λ index class. 0 })

visible : (s : Bytes) → not (all is_visible s) ≡ false → any_byte is_refused s ≡ false
visible [] h = refl
visible (b ∷ s) h = ground (arith, visible s)

starting :
    {S : Type 0} (repo : Repository S) (hash : Bytes → Bytes) (cfg : Settings)
    → (ltb (length cfg.token) 32 || ltb 4096 (length cfg.token)) ≡ false
    → not (all is_visible cfg.token) ≡ false
    → not (leb_ℤ cfg.rate_micros (pos 0)) ≡ true
    → within (pos 10000000) (pos 60000000000) cfg.worker_interval ≡ true
    → within (pos 1) (pos 1000) cfg.worker_batch ≡ true
    → within (pos 1) (pos 1000000) cfg.max_pending_events ≡ true
    → Starts repo hash cfg
unfolding new_with_queue_limit new_service is_invalid new_handler
starting repo hash cfg long seen rate interval batch limit =
    let rated : leb_ℤ cfg.rate_micros (pos 0) ≡ false = ground arith in
    let limited : (not true
          || ltb_ℤ cfg.max_pending_events (pos 1)
          || ltb_ℤ (pos 1000000) cfg.max_pending_events)
        ≡ false =
      ground arith in
    record {
      store = rw limited refl;
      service = rw rated refl;
      worker = ground arith;
      handler = rw (long, visible cfg.token seen) refl;
    }

-- Whatever the environment, a configuration that loads is one that the service starts with: its
-- store, its service and its HTTP handler are built, and its worker does not refuse to run.
pub load_config-Starts :
    {S : Type 0} (repo : Repository S) (hash : Bytes → Bytes) (env : Environment) (cfg : Settings)
    → load_config env ≡ ok cfg
    → Starts repo hash cfg
unfolding load_config
load_config-Starts repo hash env cfg h =
    let (_, _, h₁) = and_then-ok h in
    let (_, long, h₂) = and_then-ok h₁ in
    let (_, seen, h₃) = and_then-ok h₂ in
    let (_, _, h₄) = and_then-ok h₃ in
    let (rate, rates, h₅) = and_then-ok h₄ in
    let (interval, intervals, h₆) = and_then-ok h₅ in
    let (batch, batches, h₇) = and_then-ok h₆ in
    let (limit, limits, h₈) = and_then-ok h₇ in
    let built = ok_inv _ _ h₈ in
    rw (← built) (
      starting repo hash _ (refuse_if-ok _ _ long) (refuse_if-ok _ _ seen)
        (setting-ok _ _ _ _ _ rate refl rates) (setting-ok _ _ _ _ _ interval refl intervals)
        (setting-ok _ _ _ _ _ batch refl batches) (setting-ok _ _ _ _ _ limit refl limits))
