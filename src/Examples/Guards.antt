-- ===== src/Examples/Guards.antt =====
-- URLs before the sandbox guard, and an executor that it guards.
use ai_revenue_recovery.Prelude.{
  String, Bool, true, false, Option, none, some, List, [], ◌∷◌, ◌≡◌, ◌≢◌, ◌↔◌, refl, ◌==◌,
  if◌then◌else◌, strip,
}
use ai_revenue_recovery.Prelude.Exec.{ok, err, IsOk}
use ai_revenue_recovery.Foundation.Errors.{value_error, sandbox_violation}
use ai_revenue_recovery.Foundation.Value.{text, dict_of}
use ai_revenue_recovery.Execution.Idempotency.{ExecutionRequest}
use ai_revenue_recovery.Execution.Executor.{Answer, answered}
use ai_revenue_recovery.Execution.Executor.Once.{Event, execute, steps}
use ai_revenue_recovery.Execution.SandboxGuard.{
  Net, Port, absent, malformed, port, ParsedUrl, SandboxGuard, new, has_space, check_egress_allowed,
  is_url_allowed, validate_egress_url,
}
use ai_revenue_recovery.Execution.SandboxGuard.Egress.{IsWebUrl, check_egress_allowed-IsWebUrl}
use ai_revenue_recovery.Execution.SandboxGuard.Confinement.{IsConfined, steps-IsConfined}
use ai_revenue_recovery.Examples.Executions.{request, token, executor, healthy}
use ai_revenue_recovery.Examples.Logs.{runtime}

abbrev url_of : String → Port → Option ParsedUrl
url_of host p = some (record {
  scheme = "http";
  netloc = host;
  username = none;
  password = none;
  hostname = some host;
  port = p;
})

abbrev small_urlparse : String → Option ParsedUrl
small_urlparse url =
    if url == "http://localhost/mail"
    then url_of "localhost" absent
    else if url == "http://sandbox-mail:8001"
    then url_of "sandbox-mail" (port 8001)
    else if url == "http://mail.sandbox"
    then url_of "Mail.Sandbox." absent
    else if url == "http://localhost:99999"
    then url_of "localhost" malformed
    else url_of "api.stripe.com" absent

abbrev small_net : Net
small_net = record {
  urlparse = small_urlparse;
  is_loopback = λ host.
      if host == "127.0.0.1" then some true else if host == "8.8.8.8" then some false else none;
  resolve = λ host n. some ((if host == "sandbox-mail" then "127.0.0.1" else "8.8.8.8") ∷ []);
}

abbrev guard : SandboxGuard
guard = new [] [] true true

simulator_runs : check_egress_allowed small_net guard " http://sandbox-mail:8001 " ≡ ok true
unfolding check_egress_allowed strip ai_revenue_recovery.Prelude.lower
    ai_revenue_recovery.Execution.SandboxGuard.has_at
    ai_revenue_recovery.Execution.SandboxGuard.is_forbidden new
    ai_revenue_recovery.Execution.SandboxGuard.normalized
    ai_revenue_recovery.Execution.SandboxGuard.is_in
    ai_revenue_recovery.Execution.SandboxGuard.matches_pattern
    ai_revenue_recovery.Execution.SandboxGuard.after_prefix
    ai_revenue_recovery.Execution.SandboxGuard.is_label_text
simulator_runs = refl

-- A name of the sandbox that resolves outside.
rebinding_runs : check_egress_allowed small_net guard "http://mail.sandbox" ≡ err sandbox_violation
unfolding check_egress_allowed strip ai_revenue_recovery.Prelude.lower
    ai_revenue_recovery.Execution.SandboxGuard.has_at
    ai_revenue_recovery.Execution.SandboxGuard.is_forbidden new
    ai_revenue_recovery.Execution.SandboxGuard.normalized
    ai_revenue_recovery.Execution.SandboxGuard.is_in
    ai_revenue_recovery.Execution.SandboxGuard.matches_pattern
    ai_revenue_recovery.Execution.SandboxGuard.after_prefix
    ai_revenue_recovery.Execution.SandboxGuard.is_dotted
rebinding_runs = refl

production_runs : validate_egress_url small_net "https://api.stripe.com" ≡ err sandbox_violation
unfolding validate_egress_url strip ai_revenue_recovery.Prelude.lower
    ai_revenue_recovery.Execution.SandboxGuard.has_at
    ai_revenue_recovery.Execution.SandboxGuard.is_forbidden
    ai_revenue_recovery.Execution.SandboxGuard.normalized
production_runs = refl

-- A port that is out of range: the query that does not raise, as its comment says, does.
port_runs : is_url_allowed small_net guard "http://localhost:99999" ≡ err value_error
unfolding is_url_allowed strip ai_revenue_recovery.Prelude.lower
    ai_revenue_recovery.Execution.SandboxGuard.has_at
    ai_revenue_recovery.Execution.SandboxGuard.is_forbidden new
    ai_revenue_recovery.Execution.SandboxGuard.normalized
port_runs = refl

check_egress_allowed-IsWebUrl_example :
    IsOk (check_egress_allowed small_net guard "http://sandbox-mail:8001") ↔ (
      (strip "http://sandbox-mail:8001" ≢ "")
      × (has_space (strip "http://sandbox-mail:8001") ≡ false)
      × IsWebUrl small_net guard (small_urlparse (strip "http://sandbox-mail:8001")))
check_egress_allowed-IsWebUrl_example =
    check_egress_allowed-IsWebUrl small_net guard "http://sandbox-mail:8001"

abbrev mailer : List ExecutionRequest → ExecutionRequest → Answer
mailer calls r = answered (dict_of (("status", text "SUCCESS") ∷ []))

abbrev requests : List Event
requests =
    execute request token 50
    ∷ execute (record request { destination_url = "https://api.stripe.com" }) token 60
    ∷ []

steps-IsConfined_example :
    IsConfined small_net guard
      (steps runtime "secret"
        (check_egress_allowed small_net guard)
        mailer
        requests
        (executor healthy)).dispatched
steps-IsConfined_example =
    steps-IsConfined small_net guard runtime "secret" mailer requests (executor healthy) tt
