-- ===== src/Deliveries/Tests.antt =====
-- Rows and sending times for the theorems about the outbox.
use Prim.Native.String.{String}
use home_server_interface.Base.{
  ℕ, ◌≤◌, ◌<◌, true, false, List, [], ◌∷◌, Option, none, some, refl, ◌↔◌, length, max, get_or,
  arith,
}
use home_server_interface.Deliveries.{
  Delivery, DeliveryResult, Connector, pending, sent, sent_since, run_delivery_tick,
  rate_limited_until,
}
use home_server_interface.Deliveries.RateLimit.{count, rate_limited_until_iff}
use home_server_interface.Deliveries.Ticks.{sent_since-run_delivery_tick}

abbrev waiting : Delivery
waiting = record {
  connector_id = "phone";
  event = "{}";
  test = false;
  status = pending;
  attempts = 0;
  next_attempt_at = 0;
  sent_at = none;
  error = "";
}

abbrev gone_out : Delivery
gone_out = record waiting { status = sent; attempts = 1; sent_at = some 100000 }

abbrev outbox : List (String × Delivery)
outbox = ("a", gone_out) ∷ ("b", waiting) ∷ []

abbrev phone : String → Option Connector
phone id = some (record { enabled = true; rate_limit_per_minute = 1 })

abbrev sends_it : Delivery → DeliveryResult
sends_it row = record { ok = true; error = none }

abbrev refused_once : List (ℕ × DeliveryResult)
refused_once =
    (0, record { ok = false; error = some "timeout" })
    ∷ (2000, record { ok = true; error = none })
    ∷ []

rate_limited_until_iff_example :
    (count 160000 (100000 ∷ 130000 ∷ []) < max 1 2)
    ↔ (get_or (rate_limited_until (100000 ∷ 130000 ∷ []) 2 140000) 140000 ≤ 160000)
rate_limited_until_iff_example =
    rate_limited_until_iff (100000 ∷ 130000 ∷ []) 2 140000 160000 (omega arith)

sent_since-run_delivery_tick_example :
    length (sent_since "phone" 150000 (run_delivery_tick phone (λ e. true) sends_it 140000 outbox))
    ≤ max 1 1
unfolding sent_since
sent_since-run_delivery_tick_example =
    sent_since-run_delivery_tick phone (λ e. true) sends_it 140000 150000 outbox "phone"
      (record { enabled = true; rate_limit_per_minute = 1 }) refl (refl, (refl, tt)) (omega arith)
      (omega arith)
