-- ===== src/Tests/Deliveries.antt =====
-- Deliveries with retries, and over HTTP, at concrete inputs.
use authia.Prelude.{ℕ, ◌≡◌, refl, false, none, some, [], ◌∷◌, nat_eq, inr, arith, if◌then◌else◌}
use authia.EmailPassword.Plugin.{OutboundEmailMessage}
use authia.Delivery.Failures.{map_http_failure}
use authia.Delivery.Policy.{
  Channel, PolicyInput, PolicyOutcome, timeout_failure, execute_with_policy,
}
use authia.Delivery.Transports.{HttpConfig, HttpRequest, Fetched, PolicyConfig, DeliveryTimes}
use authia.Delivery.Attempts.{attempts}
use authia.Delivery.Decisions.{Ends, execute_with_policy-Ends}
use authia.Delivery.Rejections.{sent_over_http, http_rejection_is_final}

-- A delivery whose first two attempts time out.
abbrev third_try : PolicyInput
third_try = record {
  channel = Channel.http;
  run = λ number. record {
    settles_after = some 10;
    failed_with = if nat_eq number 3 then none else some timeout_failure;
  };
  total_start = 0;
  clock = λ index n. index;
  rounds = 4;
  backoff_ms = 50 ∷ 100 ∷ [];
  timeout_ms = 100;
  on_event = λ e. none;
}

execute_with_policy-Ends_example : Ends third_try 0 (execute_with_policy third_try)
execute_with_policy-Ends_example = execute_with_policy-Ends third_try (λ e. refl) (omega arith)

abbrev http_config : HttpConfig
http_config = record {
  endpoint = "https://mail.example.com/send";
  api_key = "key";
  auth_header_name = "x-api-key";
  from = "no-reply@example.com";
}

abbrev unauthorized : ℕ → HttpRequest → Fetched
unauthorized attempt request = Fetched.responded false 401

abbrev policy : PolicyConfig
policy = record { rounds = 3; backoff_ms = 50 ∷ []; timeout_ms = 100 }

abbrev times : DeliveryTimes
times = record {
  settles_after = λ attempt. some 10;
  total_start = 0;
  clock = λ index n. index;
  on_event = λ e. none;
}

abbrev reset_message : OutboundEmailMessage
reset_message = record {
  to = "ann@example.org";
  subject = "Reset your password";
  text = "https://example.com/reset";
}

http_rejection_is_final_example :
    (attempts (sent_over_http http_config unauthorized policy times reset_message).0 ≡ 1 ∷ [])
    × ((sent_over_http http_config unauthorized policy times reset_message).1
        ≡ PolicyOutcome.failed (map_http_failure (some 401)))
http_rejection_is_final_example =
    http_rejection_is_final http_config unauthorized policy times reset_message 401 (λ e. refl)
      (omega arith) (inr (omega arith)) refl refl
