-- ===== src/Lib.antt =====
-- Vault auto-unseal operator: a model of its core in Go, and proofs about it.
--
-- The operator watches VaultUnsealConfig resources. For each instance that a resource names it keeps a
-- client of the Vault server, asks whether the server is sealed, and sends it unseal keys up to a
-- threshold; it then writes a status for each instance, and a condition, back to the resource.
--
-- The parts, from the bottom, with the code that they model:
--
-- - GoLib: what the code uses of Go's libraries. GoLib/Strings, GoLib/Base64 and GoLib/Int64 are
--   byte strings, base64.StdEncoding and the product of two int64, which wraps around. GoLib/Outcome is
--   the result of a call: a value, an error or a panic. strings.ToLower outside ASCII is a parameter.
-- - Errors: pkg/vault/errors.go. A value of the type error is data, with a constructor for each error
--   type and for each format string; Errors/Display says which strings its text shows.
-- - Validator: pkg/vault/validator.go. Validator/Default and Validator/Pattern are
--   DefaultKeyValidator, Validator/Strict is StrictKeyValidator; Validator/Secrecy is about both.
-- - Strategy: pkg/vault/strategy.go with the interfaces of pkg/vault/interfaces.go.
--   Strategy/World has the clock, the context and the trace of what leaves the process;
--   Strategy/Default, Strategy/Retry and Strategy/Policy are DefaultUnsealStrategy,
--   RetryUnsealStrategy and DefaultRetryPolicy.
-- - Client: pkg/vault/client.go. Client/Api is the Vault package as a parameter, Client/Methods the
--   methods, Client/Config the configuration and the constructors. The methods are taken one at a
--   time there; Client/Lock has their mutex, with the calls interleaved.
-- - Controller: pkg/controller/vaultunsealconfig_controller.go. Controller/Types is
--   pkg/api/v1/types.go; Controller/Repository is the cache of clients, with its calls interleaved at
--   their locks in Controller/Repository/Interleaving; Controller/Instance, Controller/Status and
--   Controller/Reconcile are the work on the instances, the status and Reconcile, with the Kubernetes
--   API server as a parameter; Controller/Pods is the handler of the events of pods.
-- - Operator: pkg/operator/controller/controller/vaultunsealconfig_controller.go, the older controller,
--   over the same types.
-- - Unsealing: the strict validator of pkg/unsealing/validation, which looks for prefixes in the decoded
--   key where that of pkg/vault looks for them in the encoded one. Unsealing/Direct is the client of
--   pkg/unsealing/client/client.go, which submits the keys itself where it has no strategy, and
--   Unsealing/Strategy the strategies of pkg/unsealing/strategy/strategy.go.
-- - Resource: pkg/api/v1/types.go, and its other copy pkg/operator/crd/api/v1/types.go, with pointers,
--   slices and maps. Resource/Memory is the memory by type, an address standing for a pointer, and
--   Resource/DeepCopy the functions that copy; Resource/Shape says what a deep copy is, and composes
--   it from its fields. The controller reads the same structs as values, in Controller/Types.
-- - Mocks: pkg/vault/mocks.go. The mock client is the server of the world that its methods run in.
-- - Harness: pkg/vault/integration_framework.go. Harness/Breaker is the circuit breaker, Harness/Health
--   the health checker, Harness/Runner the runner of scenarios.
-- - Logging: pkg/logging/logger.go.
-- - Main: main.go, with the constructors of the reconciler and the repository. It yields the exit code
--   and the calls that were made of Kubernetes. Main/Life calls Reconcile of the reconciler that it
--   sets up time and again, as the controller runtime does.
-- - Tests: the theorems at concrete inputs.
--
-- A child module holds what is proved of its parent's code.
--
-- Stateful code passes a world on: the state of the server, of any type, the clock in nanoseconds and
-- the trace, newest event first. A method of Go on an interface is a field of a record of functions. A
-- loop over a slice is structural recursion. The retry loop runs on the number of rounds that its test
-- leaves, max(MaxAttempts(), 0), so its fuel is the loop's own bound. The loop over the blocks of a key
-- has one round for each byte, and a round moves by at least one byte. Lengths are natural numbers and
-- thresholds integers; the one product that may wrap around int64, in NextDelay, does.
--
-- WaitForHealthy runs on the nanoseconds to its deadline, since each tick is later than the one before.
--
-- Not modelled: log lines, the Prometheus collectors of pkg/metrics, the registration of the types with a
-- scheme, the other mocks, and the rest of the test infrastructure, which starts containers and prints
-- reports. pkg/core/types repeats pkg/vault/errors.go and pkg/vault/interfaces.go, and is not modelled
-- apart from that; so an error type of the one package stands for that of the other with the same name.
-- The retrying strategy of pkg/unsealing/strategy is not modelled, since it tells them apart. The Kubernetes packages, package flag and the Vault package are parameters.
pub mod Prelude
pub mod Resource
pub mod GoLib
pub mod Errors
pub mod Validator
pub mod Strategy
pub mod Client
pub mod Controller
pub mod Operator
pub mod Unsealing
pub mod Mocks
pub mod Harness
pub mod Logging
pub mod Main
pub mod Tests
