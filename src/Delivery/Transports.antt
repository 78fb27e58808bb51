-- ===== src/Delivery/Transports.antt =====
-- packages/delivery-provider/src: http/http-provider.ts, smtp/smtp-provider.ts and index.ts. The
-- request over HTTP and the connection to the mail server are parameters.
use authia.Prelude.{ℕ, String, Bool, true, false, Option, none, some, List, [], ◌∷◌, Dict}
use authia.EmailPassword.Plugin.{OutboundEmailMessage}
use authia.Delivery.Failures.{TransportFailure}
use authia.Delivery.Policy.{
  Channel, TelemetryEvent, PolicyInput, Effect, PolicyOutcome, execute_with_policy,
}

-- What both transports send: the message with its sender.
pub record OutgoingMail : Type 0 where
  pub from : String
  pub to : String
  pub subject : String
  pub text : String

abbrev pub outgoing : String → OutboundEmailMessage → OutgoingMail
outgoing from message = record {
  from = from;
  to = message.to;
  subject = message.subject;
  text = message.text;
}

pub record HttpConfig : Type 0 where
  pub endpoint : String
  pub api_key : String
  pub auth_header_name : String
  pub from : String

pub record HttpRequest : Type 0 where
  pub url : String
  pub method : String
  pub headers : Dict String
  -- before JSON.stringify
  pub body : OutgoingMail

-- What `fetch` comes to: a response, with `response.ok` and its status, or a rejection.
pub data Fetched : Type 0 where
  responded : Bool → ℕ → Fetched
  rejected : TransportFailure → Fetched

abbrev pub status_failure : ℕ → TransportFailure
status_failure status =
    TransportFailure.object
      (record { type_field = none; code = none; status = some (some status); response_code = none })

-- What `deliver` throws after the response; `none`: it resolves.
abbrev pub after_response : Fetched → Option TransportFailure
after_response (Fetched.responded true status) = none
after_response (Fetched.responded false status) = some (status_failure status)
after_response (Fetched.rejected error) = some error

abbrev pub http_request : HttpConfig → OutboundEmailMessage → HttpRequest
http_request config message = record {
  url = config.endpoint;
  method = "POST";
  headers = ("content-type", "application/json") ∷ (config.auth_header_name, config.api_key) ∷ [];
  body = outgoing config.from message;
}

-- DeliveryTransport['deliver'], for the environment's `attempt`: what it throws, if it throws.
abbrev pub Deliver : Type 0
Deliver = ℕ → OutboundEmailMessage → Option TransportFailure

-- createHttpProvider, over what `fetch` comes to in each attempt.
unfoldable pub create_http_provider : HttpConfig → (ℕ → HttpRequest → Fetched) → Deliver
create_http_provider config fetcher attempt message =
    after_response (fetcher attempt (http_request config message))

-- createSmtpProvider, over what `sendMail` throws in each attempt.
unfoldable pub create_smtp_provider :
    String → (ℕ → OutgoingMail → Option TransportFailure) → Deliver
create_smtp_provider from send_mail attempt message = send_mail attempt (outgoing from message)

pub record PolicyConfig : Type 0 where
  -- maxRetries + 1, zero where maxRetries is negative
  pub rounds : ℕ
  pub backoff_ms : List ℕ
  pub timeout_ms : ℕ

-- What the environment gives to one delivery: the times, and a listener.
pub record DeliveryTimes : Type 0 where
  pub settles_after : ℕ → Option ℕ
  pub total_start : ℕ
  pub clock : ℕ → ℕ → ℕ
  pub on_event : TelemetryEvent → Option TransportFailure

abbrev pub policy_input :
    Channel → Deliver → PolicyConfig → DeliveryTimes → OutboundEmailMessage → PolicyInput
policy_input channel deliver policy times message = record {
  channel = channel;
  run = λ attempt. record {
    settles_after = times.settles_after attempt;
    failed_with = deliver attempt message;
  };
  total_start = times.total_start;
  clock = times.clock;
  rounds = policy.rounds;
  backoff_ms = policy.backoff_ms;
  timeout_ms = policy.timeout_ms;
  on_event = times.on_event;
}

-- createResilientDeliveryProvider, its `send`.
unfoldable pub create_resilient_delivery_provider :
    Channel
    → Deliver
    → PolicyConfig
    → DeliveryTimes
    → OutboundEmailMessage
    → List Effect × PolicyOutcome
create_resilient_delivery_provider channel deliver policy times message =
    execute_with_policy (policy_input channel deliver policy times message)
