-- ===== src/Lib.antt =====
-- A verification library of UGK, the governance kernel whose Python sources stand under ugk/.
--
-- UGK records every governed act as a receipt in an append-only store (ugk/storage/). A receipt binds
-- what was done to the chain of authority that allowed it (ugk/authority/), to seven commitments under
-- one Merkle root (ugk/storage/binding_m2.py) and to a digest of its whole body. Stored receipts are
-- read again by the trace vector and its aggregation (ugk/fga/) and by the readers of effect trails
-- (ugk/integrity/).
--
-- Base: shared types, tests, lists, sets of names and dictionaries. Errors: the receipt verifier's
-- error codes. Json: JSON values as Python holds them. Crypto: what is taken from outside.
-- Authority (ugk/authority/): Edge and Graph are the signed edges and `AuthorityGraph`, Capabilities
--   the attenuation along a path, A1 the set-valued verifier.
-- Binding (ugk/storage/binding_m2.py): Canon has the canonical forms c_s, c_c, c_m, c_j and the
--   commitments H_s, H_c, H_m, H_j (here commit_s and so on), Merkle the root and inclusion proofs.
-- Store (ugk/storage/store.py): Receipt and Body are `Receipt` and `compute_h_body`; Effect, Emit,
--   Write and Append are the stages of `UGKReceiptStore.write`, World what it reads besides the store;
--   Chain is the verification; Epoch is `transaction` and `seal_and_prune_epoch`; Continuation finds the
--   stored continuation records and tells whether they have expired. Samples has the receipts that the
--   tests use, Built the first write of them.
-- Fga (ugk/fga/): Surface, Trace and Aggregate are ugk/fga/trace_vector.py, Terminal is `classify` of
--   ugk/fga/terminal_outcome.py.
-- Integrity (ugk/integrity/): Trail, Irreversible and Reversible read the trails of outside effects.
-- Will: Intent has the declarations, revocations and `IntentStore` of ugk/intent.py, Checker is
--   `WillChecker` of ugk/will.py.
-- Cgp (ugk/cgp/capability_sufficiency.py): Sufficiency has the enforced policy entries and
--   `enforce_decision`.
-- Governance (ugk/governance/warrant.py): Warrant has `DecisionWarrant` and `WarrantStore`.
-- Kernel (ugk/kernel.py): Node is the store with the faults that its writes will meet, the
--   registries that a call changes and a note of each call of an outside effect; Request and
--   Preflight build and check the requests; Refuse and Horizon have the refusals of `execute`
--   (steps 1 to 4c), Admit the admission and what the success receipt carries; Execute is `execute`
--   with its atomic seam and its legacy order; Irreversible and Compensate are the external
--   classes, Graded and Reconcile the three reconciliations, Continuation deferral, resumption and
--   bridges. A database error of the model is one of a busy store, so that it is retried; a
--   terminal is tried three times. An effect is a function on the store, a gate is its answer.
-- The other modules state and prove properties; each Tests, and Kernel.DeferralTests,
-- applies them to concrete inputs.
--
-- State is passed explicitly: a store is its rows with the tip, the next id and the depth of open
-- transactions, and a call gives a value or an exception (Store.Attempt) with the store behind it.
-- Where SQLite fails during a write is an argument (Fault): at the insertion, or at the commit,
-- which leaves the row in the connection's open transaction. A node takes one fault for each write,
-- and the atomic seam two, one for the receipt and one for the release. The epoch seal also takes
-- whether the release of its savepoint fails and whether the rollback to it does (Closing); the
-- rollback of the seam is taken to work. A lock is not modelled: calls are made one at a time.
-- Digests and signatures are texts, and SHA-256, Ed25519, canonical
-- JSON, `json.dumps`, `json.loads`, `sorted` and the clock are parameters; a theorem that needs a
-- digest not to be empty, or two digests to differ, says so. The registries of policies, keys and
-- authorities, and the constants of ugk/invariants.py, are fields of World. `canonical_path` and
-- `proof_path` run on fuel, the number of subjects plus one and the number of leaves, and the
-- closure of intents on the number of names that the edges lead to, plus one; that these are enough
-- is proved.
--
-- Not modelled: field compression, schema migration and recovery of the store; sessions and ceremonies of
-- the kernel; policies, decision dimensions, amendments and witnesses; the gates under ugk/conformance/,
-- the command line, projections and tools. A float is its text, dictionary keys are texts, and canonical
-- JSON is taken to give a text for every value.
pub mod Base
pub mod Errors
pub mod Json
pub mod Crypto
pub mod Authority
pub mod Binding
pub mod Store
pub mod Fga
pub mod Integrity
pub mod Will
pub mod Cgp
pub mod Governance
pub mod Kernel
