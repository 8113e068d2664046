-- ===== src/Application/Starting/Exits.antt =====
-- cmd/usage-billing/main.go: when `main` exits with status 0.
use usage_billing.Prelude.{
  Bytes, Bool, true, false, ◌&&◌, Option, none, some, ◌≡◌, ◌↔◌, refl, arith,
}
use usage_billing.Prelude.Int.{pos_part}
use usage_billing.Errors.{Error, Result, ok, err}
use usage_billing.Billing.{Repository}
use usage_billing.Postgres.Store.{Store}
use usage_billing.Telemetry.{new_collector}
use usage_billing.Config.{Environment, Settings, and_then, load_config}
use usage_billing.Config.Starting.{Starts, load_config-Starts}
use usage_billing.Application.Shutdown.{Ending, serve}
use usage_billing.Application.Shutdown.Joins.{IsClean, serve_iff}
use usage_billing.Application.Starting.{Outside, set_up, served, run, exit_code, status, main}

-- The outside lets the service start.
pub record IsUp (outside : Outside) : Type 0 where
  pub parses : outside.parses ≡ true
  pub has_pool : outside.has_pool ≡ true
  pub answers : outside.answers ≡ true
  pub listens : outside.listens ≡ true

abbrev is_up : Outside → Bool
is_up o = o.parses && o.has_pool && o.answers && o.listens

data Built {A : Type 0} : Bool → Result A → Type 0 where
  up : (a : A) → Built true (ok a)
  down : (e : Error) → Built false (err e)

module _ {S : Type 0} (repo : Store → Repository S) (hash : Bytes → Bytes) (cfg : Settings) where
  kept_store : Store
  kept_store = record { max_pending = pos_part cfg.max_pending_events }

  builds :
      (p h a l : Bool)
      → Starts (repo kept_store) hash cfg
      → Built
          (p && h && a && l)
          (set_up repo hash cfg (record { parses = p; has_pool = h; answers = a; listens = l }))
  unfolding kept_store set_up and_then new_collector
  builds false h a l s = down _
  builds true false a l s = down _
  builds true true false l s = down _
  builds true true true false s = rw (s.store, s.service, s.handler) (down _)
  builds true true true true s = rw (s.store, s.service, s.handler) (up _)

exited : (e : Option Error) → (exit_code e ≡ 0) ↔ ((true ≡ true) × (e ≡ none))
exited none = ground arith
exited (some e) = ground arith

served_iff :
    {A : Type 0} (b : Bool) (r : Result A) (x : Ending)
    → Built b r
    → (exit_code (served r x) ≡ 0) ↔ ((b ≡ true) × ((serve x).0 ≡ none))
served_iff true r x (up a) = exited (serve x).0
served_iff false r x (down e) = ground arith

is_up-IsUp : (o : Outside) → (is_up o ≡ true) ↔ IsUp o
is_up-IsUp o = (
  λ h. record {
    parses = ground arith;
    has_pool = ground arith;
    answers = ground arith;
    listens = ground arith;
  },
  λ u. rw (u.parses, u.has_pool, u.answers, u.listens) refl,
)

main_lem :
    {S : Type 0} (repo : Store → Repository S) (hash : Bytes → Bytes) (r : Result Settings)
    (outside : Outside) (x : Ending)
    → ((cfg : Settings) → r ≡ ok cfg → Starts (repo (kept_store repo hash cfg)) hash cfg)
    → (status repo hash r outside x ≡ 0)
      ↔ ((cfg : Settings) × (r ≡ ok cfg) × IsUp outside × IsClean x)
unfolding run
main_lem repo hash (err e) outside x starts = (λ h. ground arith, λ h. cc (h.1))
main_lem repo hash (ok cfg) outside x starts =
    let s = served_iff _ _ x (builds repo hash cfg _ _ _ _ (starts cfg refl)) in
    (
      λ h. let (a, b) = s.0 h in (cfg, refl, (is_up-IsUp outside).0 a, (serve_iff x).0 b),
      λ h.
          let (_, _, reached, clean) = h in
          s.1 ((is_up-IsUp outside).1 reached, (serve_iff x).1 clean),
    )

-- `main` exits with status 0 exactly where the configuration loads, the outside lets the service
-- start, and `serve` comes to a clean end.
pub main_iff :
    {S : Type 0} (repo : Store → Repository S) (hash : Bytes → Bytes) (env : Environment)
    (outside : Outside) (x : Ending)
    → (main repo hash env outside x ≡ 0)
      ↔ ((cfg : Settings) × (load_config env ≡ ok cfg) × IsUp outside × IsClean x)
unfolding main run
main_iff repo hash env outside x =
    main_lem repo hash (load_config env) outside x
      (λ cfg. load_config-Starts (repo (kept_store repo hash cfg)) hash env cfg)
