-- ===== src/Lib.antt =====
-- AlethOS ToolPassport: the trust core in backend/src, a service that records the audit of a tool as
-- a run with an append-only log of events, scores it, freezes its Passport, and has a human approve
-- an on-chain attestation of it.
--
-- How the parts interact. The HTTP API calls the service layer (backend/src/services/mod.rs), which
-- validates a request, reads what it needs through the repository (backend/src/repository/mod.rs) and
-- asks it for one transaction. Every transaction that changes a run writes events with a sequence
-- number and a hash of the event before it. A Passport freeze stamps the hash of its event into the
-- provenance; a human decision must name the hashes of the latest freeze; an attestation claims the
-- run, hands a commitment to the submitter, and records a receipt.
--
-- Files and sources:
--   Prelude        lists, texts as lists of code points, sorting, results, Boolean tests
--   Domain         backend/src/domain: a record for a struct, a data type for an enum; Json has what
--                  serde writes for Passports and manifests; Codecs has the proof on what is
--                  written and read for an enum
--   Errors         RepositoryError, StorageError and ServiceError
--   Platform       the packages uuid, chrono, serde_json, serde_json_canonicalizer, sha2 and hex as
--                  parameters
--   Lifecycle      event_projection and its helpers in backend/src/services/mod.rs
--     Graph        the table of what an appended event does to its run
--   Storage        backend/src/services/storage.rs; a Disk is what the file system answers
--   Store          the tables of backend/migrations and what an INSERT checks
--     Events       the event log of backend/src/repository/mod.rs: create_run, append_event, get_run,
--                  insert_generated_event, next_sequence_and_prev_hash, compute_event_hash
--     Records      create_artifact, create_evidence, get_artifact and both lists
--     Boards       create_evidence_freeze, create_check_results and their reads
--     Freezes      create_passport_freeze, get_passport_freeze, next_passport_sequence
--     Approvals    create_approval, claim_attestation_attempt, create_attestation_receipt, reads
--     Tools        create_tool, add_external_id, load_full_tool, find_tools_by_identifiers,
--                  find_tools_by_name and the other reads of tools
--     Listings     list_runs and list_events, with the proof about the order
--     Writes       sequences of the writes of the repository
--     Chain, Logged, Decisions, Tamper, Kept, Numbers, ToolRows, WriteOnce, Sequences and Runs are
--                  proofs about these
--   Scoring        backend/src/services/scoring.rs, with children Types (the catalog's types),
--                  Embedded (standards/alethos-toolpassport/0.3.0.json and profiles/*/0.3.0.json),
--                  Catalog (load_catalog, validate_catalog), Findings (validate_finding and the map of
--                  findings), Messages (the texts of the errors); Steps, Bounds, Caps and Coverage are
--                  proofs
--   Service        backend/src/services/mod.rs
--     Requests     validation; References: stable IDs and references to evidence; Named: the loops
--                  over claims, gaps, statements and risks
--     Uploads      create_artifact, create_evidence; Undone and Saved are proofs about them
--     Board        freeze_evidence_board; Frozen is the proof about it
--     Checks       create_check_results; Grounded is the proof about it
--     Passports    freeze_passport; Composed is the proof about it
--     Normalizer   backend/src/services/normalizer.rs; ToolIds is the proof about it
--     Tools        create_tool, resolve_tool, add_identifier, create_run; Registry, Ownership and
--                  Started have the proofs
--     Log          append_event; Listings: the reads of runs and events; Approve: create_approval;
--                  Attest: submit_attestation; Steps: requests that interleave; Effects, Once,
--                  Retry, Authority, Bound and Outcome are proofs
--   Api            backend/src/api: Failure (error.rs), Investigations (the registry of mod.rs and
--                  launch_investigation); Responses and Processes are proofs
--   Tests          concrete runs
--
-- Conventions. A database is a record of tables; a table is a list of rows, the last insertion
-- first. A function returns the new tables or an error, and on an error its transaction is rolled
-- back; submit_attestation, create_artifact and create_evidence, which do more than one
-- transaction, return the world also on an error. In Service/Steps the call of the submitter and
-- the transaction that records its receipt are one step. Times are counts of microseconds and UUIDs
-- 128-bit numbers; what Utc::now and Uuid::new_v4 return are arguments. A JSON column holds the
-- value itself; a JSON number that is negative or fractional is the text that writes it. The
-- argument `read` says whether the query in next_sequence_and_prev_hash succeeds, since the code
-- takes its failure for an empty log; other faults of the database are not modelled. A sequence
-- number is a natural number: the i64 of the column is not reached in practice. Scores are u8 and
-- u16 with their wrap-around written out. The weights and points of the catalogs are multiples of a
-- quarter, so the model counts in quarters and sixteenths; a quotient of them is taken exactly. A
-- confidence is a multiple of 2 ^ -1074, as every finite f64. A HashSet is the list of its
-- elements, tested for membership; SELECT DISTINCT, whose order is open, gives the order of the
-- rows. A long method is split into the part that computes what is stored and the part that stores
-- it, with the reads of both from one database. The only fuel is that of the decimal printing of a
-- u64 in an error message, 20 digits. The answers of the file system to a key are fixed for a call:
-- the second resolution of a path that resolved does not fail, and a failed write whose clean-up
-- fails too leaves no partial file.
--
-- Not modelled: the subscription to events; the handlers of the HTTP API other than
-- launch_investigation; the decoding of rows; the channels of the broadcaster (the model keeps the
-- list of what is sent); and AlloyAttestationSubmitter (the submitter is a parameter, as the trait
-- AttestationSubmitter is for the service). The orchestrator, the dashboard and the contracts are
-- other programs.
pub mod Prelude
pub mod Domain
pub mod Errors
pub mod Platform
pub mod Lifecycle
pub mod Store
pub mod Scoring
pub mod Storage
pub mod Service
pub mod Api
pub mod Tests
