-- ===== src/Config/Tests.antt =====
-- The smallest environment with which the service starts.
use usage_billing.Prelude.{Bytes, codes, same, List, [], ◌∷◌, true, none, if◌then◌else◌, refl}
use usage_billing.Prelude.Int.{pos}
use usage_billing.Errors.{ok, err, sentinel, not_found}
use usage_billing.Billing.{Event, Repository}
use usage_billing.Config.{Environment, Settings, load_config, is_blank, and_then, setting}
use usage_billing.Config.Starting.{Starts, load_config-Starts}

abbrev token : Bytes
token = codes "0123456789abcdef0123456789abcdef"

abbrev pub env : Environment
env = record {
  variable = λ name.
      if same name (codes "BILLING_API_TOKEN")
      then token
      else if same name (codes "DATABASE_URL")
      then codes "postgres://db"
      else [];
  duration = λ s. none;
  host_and_port = λ s. true;
}

abbrev defaults : Settings
defaults = record {
  database_url = codes "postgres://db";
  token = token;
  http_addr = codes "127.0.0.1:8080";
  rate_micros = pos 1000;
  worker_interval = pos 100000000;
  worker_batch = pos 100;
  max_pending_events = pos 10000;
}

abbrev repo : Repository (List Event)
repo = record {
  accept = λ e s. (ok (e, true), e ∷ s);
  get = λ id s. err (sentinel not_found);
  summary = λ id s. err (sentinel not_found);
  retry = λ id generation s. (err (sentinel not_found), s);
}

load_config-Starts_example : Starts repo (λ s. s) defaults
unfolding load_config is_blank and_then setting same
load_config-Starts_example = load_config-Starts repo (λ s. s) env defaults refl
