-- ===== src/Lib.antt =====
-- Verification library of Canary402, a service that audits x402 payment endpoints: it probes a target,
-- reads the payment challenge, and if the request asks for it pays one option within two caps, asks a
-- model for a judgement of the answer, and stores a report with a verdict.
--
-- The parts of the program and their models:
--   Report (internal/canary/types.go): the request, the report and its parts, with the fields of the
--     Go structs; constants such as "pass" and "probe" are data types.
--   Payment (internal/canary/payment.go): Network has normalizeNetwork and the two patterns, Amount
--     atomicString and integerValue, Challenge the parser of a 402 answer, Select SelectPayment, where
--     `consider` is one round of its loop and `conclude` what follows it, Select/Chosen
--     says where a selection comes from, Authorize has the PaymentAuthorizer, and Authorize/Message reads
--     the message that it signs.
--   Target (internal/canary/safeclient.go): ValidateURL, resolveAndValidate and the dialer of
--     SafeHTTPClient; Target/Address has isSafePublicIP with the predicates of net/netip.
--   Evidence (the helpers at the end of internal/canary/auditor.go): how untrusted text is cut before
--     it enters a report.
--   Auditor (internal/canary/auditor.go): Requests has validateRequest and send, Checks the checks of
--     the early returns, Evaluation evaluateOutcome, Scoring finalizeReport, Completion complete,
--     Paying what follows the selection of an option, and Flow the rest of
--     Audit, one function for each stage between two early returns, each in the order of the code.
--   Payment/Signer (internal/canary/payment.go): RemoteSigner, whose pinned address is explicit state.
--   Config (internal/canary/config.go): ConfigFromEnv over an environment.
--   Semantic (internal/canary/semantic.go): LiteLLMEvaluator, the prompt and the reading of its answer.
--   Spec (internal/canary/specsmith.go): the specification review; Spec itself has addFinding. Documents
--     has fetchSpecDocument, Registration analyzeRegistration and analyzeSkillDocument, Paths
--     findOpenAPIPath, Refs resolveObject, Schemas the schemas of an operation, Analysis
--     analyzeOpenAPI, Repairs buildSpecRepairs and schemaForValue, Inspection inspectSpecifications,
--     and for what follows the challenge, Challenge analyzeChallenge and Finalize finalize. The whole
--     fills the interface Inspector of the auditor.
--   Store (internal/canary/store.go): FileStore over the files of a directory, each call to the
--     operating system, that of os.Remove too, with an answer of its own.
--   Api (internal/canary/httpapi.go): the answers of the handlers, and the semaphore as a relation of
--     steps between states, with audits that overlap and that end by an answer or by a panic. Pages has
--     the routes and the documents that the program serves of itself, Published the API over the
--     program's own store.
--   Command (cmd/canary402/main.go): what `main` builds from the environment, up to the server.
--   Base, Json and Effect are shared: Go strings as lists of bytes, decimal numbers, results with an
--     error message, decoded JSON, and effects. Examples runs the models on concrete data.
--
-- Effects: an operation that asks the outside (resolver, dialer, target, signer, evaluator, store)
-- appends an event to a history, the latest first, and is answered by a parameter, a function of the
-- history so far. So an answer may change from one call to the next, and the theorems hold for every
-- sequence of answers. The record `Outside` holds these parameters, and with them the functions of Go's
-- standard library that read or print formats: the parsers of URLs, addresses, JSON, base64 and media
-- types, SHA-256, the clock and the random bytes.
--
-- Numbers are natural where the code keeps them so, and integers of arbitrary size where the code uses
-- math/big or reads a number from outside; strconv.Atoi refuses what does not fit 64 bits. Sums of
-- weights and points are far below 64 bits and are not wrapped. Loops are recursion on lists. The
-- decimal printer runs on fuel, one round for each digit and more rounds than digits. Where the code
-- bounds a recursion by a depth (references and schemas by 8, inferred schemas by 6), the model recurs on
-- the levels that are left, so that the bound is the code's own.
--
-- A decoded JSON object is a list of fields with distinct keys, as a Go map has them; loops over the
-- sorted keys of a map sort them by insertion. Maps that the code builds for JSON are lists in the order
-- of the code.
--
-- Not modelled: the mux, the common headers and the landing page of the HTTP API, panics outside the
-- handler of an audit, the life cycle of the server in cmd/canary402/main.go, and cancellation and
-- timeouts. The auditor takes the signer, the evaluator and the store as parameters, of which
-- Payment/Signer, Semantic and Store model the program's own implementations. Case mapping covers ASCII
-- and the few other characters that map to ASCII letters, which decides every comparison that the code
-- makes with ASCII text.
pub mod Base
pub mod Json
pub mod Report
pub mod Effect
pub mod Evidence
pub mod Payment
pub mod Target
pub mod Auditor
pub mod Api
pub mod Command
pub mod Config
pub mod Semantic
pub mod Spec
pub mod Store
pub mod Examples
