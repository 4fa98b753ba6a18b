-- ===== src/Mocks/Client.antt =====
-- MockVaultClient of pkg/vault/mocks.go. The mock is the server of the world that a call runs in.
pub mod Progress
use vault_autounseal_operato.Prelude.{
  ℕ, zero, suc, ◌+◌, Bool, true, false, not, ◌&&◌, ◌||◌, Option, none, some, List, [], ◌++◌, length,
  ℤ, pos, negsuc, ltb_ℤ, leb_ℤ, if◌then◌else◌,
}
use vault_autounseal_operato.GoLib.Strings.{Bytes, codes, bytes_eq}
use vault_autounseal_operato.GoLib.Outcome.{Outcome, ok, err}
use vault_autounseal_operato.Errors.{
  Err, nil, formatted, Context, mock_seal_status, mock_unseal, mock_initialized, mock_health_check,
}
use vault_autounseal_operato.Strategy.World.{World, Ctx, SealStatus, clamp, race}
use vault_autounseal_operato.Strategy.Interface.{VaultClient, StatusCall, mock_type}
use vault_autounseal_operato.Client.Api.{HealthStatus}

-- `call_counts` is a map, in which a missing key reads 0.
pub record MockVaultClient : Type 0 where
  pub sealed : Bool
  pub initialized : Bool
  pub healthy : Bool
  pub closed : Bool
  pub unseal_progress : ℤ
  pub unseal_threshold : ℤ
  pub submitted_keys : List Bytes
  pub fail_health_check : Bool
  pub fail_seal_status : Bool
  pub fail_unseal : Bool
  pub fail_initialized : Bool
  pub response_delay : ℤ
  pub call_counts : Bytes → ℕ
  pub last_error : Err
  pub seal_status_resp : SealStatus
  pub health_resp : HealthStatus

abbrev pub new_mock_vault_client : MockVaultClient
new_mock_vault_client = record {
  sealed = true;
  initialized = true;
  healthy = true;
  closed = false;
  unseal_progress = pos 0;
  unseal_threshold = pos 3;
  submitted_keys = [];
  fail_health_check = false;
  fail_seal_status = false;
  fail_unseal = false;
  fail_initialized = false;
  response_delay = pos 0;
  call_counts = λ name. 0;
  last_error = nil;
  seal_status_resp = record { sealed = true; progress = pos 0; required = pos 3 };
  health_resp = record { initialized = true; sealed = true; standby = false };
}

abbrev pub is_zero : ℤ → Bool
is_zero (pos zero) = true
is_zero (pos (suc n)) = false
is_zero (negsuc n) = false

-- `m.callCounts[name]++`.
abbrev pub count_call : Bytes → MockVaultClient → MockVaultClient
count_call name m = record m {
  call_counts = λ n. if bytes_eq n name then suc (m.call_counts n) else m.call_counts n;
}

abbrev updated : (MockVaultClient → MockVaultClient) → World MockVaultClient → World MockVaultClient
updated f w = record w { server = f w.server }

-- A call under its name: it is counted, then `select` waits for the response delay, if there is one, or
-- for the end of the context. `work` is the rest of the method, and `given_up` is what the method
-- returns when the context ends first.
abbrev pub answering :
    {A : Type 0}
    → Bytes
    → Ctx
    → A
    → (MockVaultClient → A × MockVaultClient)
    → World MockVaultClient
    → A × World MockVaultClient
answering {A} name ctx given_up work w =
    let m = count_call name w.server in
    let delay = w.server.response_delay in
    let (done, t) = race ctx w.now (w.now + clamp delay) in
    let now = if ltb_ℤ (pos 0) delay then t else w.now in
    if ltb_ℤ (pos 0) delay && done
    then (given_up, record w { server = m; now = now })
    else let (a, m') = work m in (a, record w { server = m'; now = now })

-- `m.lastError = fmt.Errorf(…)`.
abbrev failing : Context → MockVaultClient → MockVaultClient
failing c m = record m { last_error = formatted c }

unfoldable pub seal_answer : MockVaultClient → (Bool × Err) × MockVaultClient
seal_answer m =
    if m.fail_seal_status
    then ((true, formatted mock_seal_status), failing mock_seal_status m)
    else ((m.sealed, nil), m)

unfoldable pub is_sealed : Ctx → World MockVaultClient → (Bool × Err) × World MockVaultClient
unfolding seal_answer
is_sealed ctx = answering (codes "IsSealed") ctx (false, ctx.cause) seal_answer

-- The progress that GetSealStatus stores in its response.
unfoldable pub shown_progress : MockVaultClient → ℤ
shown_progress m =
    let progress = m.seal_status_resp.progress in
    if not m.sealed && is_zero progress
    then m.unseal_threshold
    else if is_zero progress || not (is_zero m.unseal_progress)
    then m.unseal_progress
    else progress

unfoldable pub status_answer : MockVaultClient → Outcome Err (Option SealStatus) × MockVaultClient
unfolding shown_progress
status_answer m =
    if m.fail_seal_status
    then (err (formatted mock_seal_status), failing mock_seal_status m)
    else let resp = record m.seal_status_resp { sealed = m.sealed; progress = shown_progress m } in
      (ok (some resp), record m { seal_status_resp = resp })

unfoldable pub get_seal_status : Ctx → StatusCall MockVaultClient
unfolding status_answer
get_seal_status ctx = answering (codes "GetSealStatus") ctx (err ctx.cause) status_answer

-- The keys are added to those submitted before; enough of them unseal.
unfoldable pub take_keys : List Bytes → ℤ → MockVaultClient → MockVaultClient
take_keys keys threshold m =
    let submitted = m.submitted_keys ++ keys in
    if leb_ℤ threshold (pos (length submitted))
    then record m { submitted_keys = submitted; sealed = false; unseal_progress = threshold }
    else record m { submitted_keys = submitted; unseal_progress = pos (length submitted) }

unfoldable pub unseal_answer :
    List Bytes → ℤ → MockVaultClient → Outcome Err (Option SealStatus) × MockVaultClient
unfolding take_keys
unseal_answer keys threshold m =
    if m.fail_unseal
    then (err (formatted mock_unseal), failing mock_unseal m)
    else let m' = take_keys keys threshold m in
      let resp = record m'.seal_status_resp { sealed = m'.sealed; progress = m'.unseal_progress } in
      (ok (some resp), record m' { seal_status_resp = resp })

unfoldable pub unseal : Ctx → List Bytes → ℤ → StatusCall MockVaultClient
unfolding unseal_answer
unseal ctx keys threshold =
    answering (codes "Unseal") ctx (err ctx.cause) (unseal_answer keys threshold)

unfoldable pub initialized_answer : MockVaultClient → (Bool × Err) × MockVaultClient
initialized_answer m =
    if m.fail_initialized
    then ((false, formatted mock_initialized), failing mock_initialized m)
    else ((m.initialized, nil), m)

unfoldable pub is_initialized : Ctx → World MockVaultClient → (Bool × Err) × World MockVaultClient
unfolding initialized_answer
is_initialized ctx = answering (codes "IsInitialized") ctx (false, ctx.cause) initialized_answer

unfoldable pub health_answer : MockVaultClient → Outcome Err HealthStatus × MockVaultClient
health_answer m =
    if m.fail_health_check
    then (err (formatted mock_health_check), failing mock_health_check m)
    else let resp = record m.health_resp { sealed = m.sealed } in
      (ok resp, record m { health_resp = resp })

unfoldable pub check_health :
    Ctx → World MockVaultClient → Outcome Err HealthStatus × World MockVaultClient
unfolding health_answer
check_health ctx = answering (codes "HealthCheck") ctx (err ctx.cause) health_answer

unfoldable pub close : World MockVaultClient → Err × World MockVaultClient
close w = (nil, updated (λ m. record (count_call (codes "Close") m) { closed = true }) w)

-- The methods by which a test controls the mock.
unfoldable pub set_sealed : Bool → MockVaultClient → MockVaultClient
set_sealed false m = record m { sealed = false; unseal_progress = m.unseal_threshold }
set_sealed true m = record m { sealed = true; unseal_progress = pos 0; submitted_keys = [] }

abbrev pub set_healthy : Bool → MockVaultClient → MockVaultClient
set_healthy b m = record m { healthy = b }

abbrev pub set_fail_health_check : Bool → MockVaultClient → MockVaultClient
set_fail_health_check b m = record m { fail_health_check = b }

abbrev pub set_fail_seal_status : Bool → MockVaultClient → MockVaultClient
set_fail_seal_status b m = record m { fail_seal_status = b }

abbrev pub set_fail_unseal : Bool → MockVaultClient → MockVaultClient
set_fail_unseal b m = record m { fail_unseal = b }

abbrev pub set_fail_initialized : Bool → MockVaultClient → MockVaultClient
set_fail_initialized b m = record m { fail_initialized = b }

abbrev pub set_response_delay : ℤ → MockVaultClient → MockVaultClient
set_response_delay d m = record m { response_delay = d }

-- IsClosed, GetSealed, GetCallCount, GetSubmittedKeys and GetUnsealThreshold read one field each. Reset
-- leaves the two responses as they are.
unfoldable pub reset : MockVaultClient → MockVaultClient
reset m = record m {
  sealed = true;
  healthy = true;
  closed = false;
  unseal_progress = pos 0;
  submitted_keys = [];
  fail_health_check = false;
  fail_seal_status = false;
  fail_unseal = false;
  fail_initialized = false;
  response_delay = pos 0;
  call_counts = λ name. 0;
  last_error = nil;
}

-- The mock as a value of the interface VaultClient.
abbrev pub as_vault_client : VaultClient MockVaultClient
as_vault_client = record {
  is_sealed = is_sealed;
  get_seal_status = get_seal_status;
  unseal = unseal;
  dynamic = mock_type (λ w. w.server.unseal_threshold);
}
