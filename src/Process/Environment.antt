-- ===== src/Process/Environment.antt =====
-- What the process reads from its environment: src/main.rs, `WebhookServer::new` of
-- src/webhook/server.rs and `ScraperService::new` of src/scraper/service.rs.
use external_pod_autoscaler.Prelude.{
  ℕ, ◌*◌, ◌%◌, ◌^◌, ◌≤◌, ◌≡◌, ◌↔◌, refl, Bool, true, false, Option, none, some, arith, ltb,
  if◌then◌else◌,
}
use external_pod_autoscaler.Text.{Text, codes, parse_u16, parse_u64, parse_bool, text_beq_iff}

-- `std::env::var`.
pub data Var : Type 0 where
  value : Text → Var
  not_present not_unicode : Var

abbrev pub Environment : Type 0
Environment = Text → Var

-- `.ok()`.
abbrev pub ok_text : Var → Option Text
ok_text (value text) = some text
ok_text not_present = none
ok_text not_unicode = none

abbrev pub and_parse {ℓ} : {A : Type ℓ} → (Text → Option A) → Option Text → A → A
and_parse parse none default = default
and_parse parse (some text) default = elim (parse text) [ none ↦ default | some a ↦ a ]

unfoldable pub webhook_port : Environment → ℕ
webhook_port env = and_parse parse_u16 (ok_text (env (codes "WEBHOOK_PORT"))) 8443

unfoldable pub metrics_port : Environment → ℕ
metrics_port env = and_parse parse_u16 (ok_text (env (codes "METRICS_PORT"))) 9090

-- `none` is the error that ends the start.
unfoldable pub drain_secs : Var → Option ℕ
drain_secs (value text) = parse_u64 text
drain_secs not_present = some 120
drain_secs not_unicode = none

unfoldable pub enable_webhooks : Environment → Bool
enable_webhooks env = and_parse parse_bool (ok_text (env (codes "ENABLE_WEBHOOKS"))) true

-- `.max(1)`; a `usize` has 64 bits.
abbrev pub max_one : ℕ → ℕ
max_one n = if ltb n 1 then 1 else n

unfoldable pub worker_count : Environment → ℕ
worker_count env = max_one (and_parse parse_u64 (ok_text (env (codes "SCRAPER_WORKERS"))) 20)

-- The slots of the channel of jobs.
unfoldable pub job_slots : Environment → ℕ
job_slots env = worker_count env * 64 % 2 ^ 64

worker_count_positive : (env : Environment) → 1 ≤ worker_count env
unfolding worker_count
worker_count_positive env = ground arith

-- The admission webhooks are left out only where the variable is the word `false`.
pub webhooks_disabled :
    (env : Environment)
    → (enable_webhooks env ≡ false)
      ↔ (ok_text (env (codes "ENABLE_WEBHOOKS")) ≡ some (codes "false"))
unfolding enable_webhooks
webhooks_disabled env = (disabled (ok_text (env (codes "ENABLE_WEBHOOKS"))), λ e. rw e refl)
  where
    disabled :
        (text : Option Text) → and_parse parse_bool text true ≡ false → text ≡ some (codes "false")
    disabled none h = ground arith
    disabled (some text) h =
        ground (arith, text_beq_iff text (codes "true"), text_beq_iff text (codes "false"))
