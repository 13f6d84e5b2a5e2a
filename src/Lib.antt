-- ===== src/Lib.antt =====
-- The core of the Film Compliance Agent: the service that takes a micro-drama project from intake
-- through classification, the D3 gate, the frozen form and the institution's review to the filing.
--
-- Parts and files (paths from the repository's root):
--   Base          tests, lists, dicts, sorting and `str.strip`, shared by all parts
--   Schemas       schemas/*.py: enumerations, documents and their validators as tests; Policy holds
--                 the packs of a policy snapshot, Json the `dict` payloads
--   Errors        core/errors.py: `AppError` and its codes; a result is a value or an error
--   Gate          core/gate.py: `evaluate_gate_d3`, `required_fact_keys`, `can_freeze_form`
--   StateMachine  core/state_machine.py: `ALLOWED_TRANSITIONS`, `_check_entry_guards`, `transition`
--   Forms         core/forms.py: `build_fields`, `draft_hash`, `pending_keys`, `deferred_keys`
--   Classify      core/classify: d1a.py (D1a, form type), subject_rules.py and d1b.py (SubjectRules and
--                 D1b, special subjects), d1c.py (D1c, tier), chain.py (Chain: `classify`, the filing
--                 route and the clauses not yet in force)
--   Materials, Roadmap, Institution   core/materials.py, core/roadmap.py, core/institution.py
--   Store         store/memory.py: the stores as one record, the task index, drafts, reviews
--   Effects       the environment of the service and the monad its methods run in
--   Workflow      core/workflow_service.py: Core (facts, events, `_transition`), Passage (cards,
--                 gate, review loop, roadmap), Collection (materials), Drafts, Findings, Filing
--                 (institution and filing), Returns (the way back from a returned review),
--                 Recalculation (`recalc_tier`, `mark_policy_stale`)
--   Jobs          core/jobs.py, workers/jobs.py, and `_run_job` and `execute_task` of the service:
--                 the runners, the replay of a recorded job, and the worker's deliveries
--   Policy        schemas/policy_snapshot.py (Documents), policy/validation.py (Validation) and
--                 workers/policy: repository.py (Repository; Commits where checks and writes come
--                 in steps), publish.py (Publish), outbox.py (Dispatch), consumer.py with
--                 adapters/memory_projects.py (Consumer) and adapters/fake_recalc.py
--                 (Consumer/Client), refresh.py and normalize.py (Refresh)
--   Tests         concrete runs
-- The service reads and writes the stores and, in all that is modelled, changes states by the state
-- machine (`begin_review_reanalysis`, which is not modelled, sets a project back to DRAFT by itself);
-- the state machine calls the gate; the gate and the forms read the same facts. A job is recorded in
-- the task store and runs in the request or is claimed by the worker. A refresh opens a proposal, the
-- publisher makes it a snapshot with an event in the outbox, the dispatcher sends the event, and the
-- consumer marks the projects it affects.
--
-- How the code is read. A method is a function from an environment and the stores to a result and
-- the stores, so what was written before an error stays written. Pydantic's `model_copy` does not
-- validate and is a record update; a constructor call that validates raises where the validator
-- refuses. A point in time is a number; minutes, confidences and numbers in facts are counted in
-- millionths. A dict is an association list in insertion order, a `defaultdict` a function. `now`
-- takes the next reading of the environment's clock and `new_id` the next of its identifiers.
-- Parameters: the clock, the identifiers, the policy snapshots (packs as typed records in which a
-- missing key is `none`), the digests, and the language model, which answers or fails.
-- Further parameters: what a job does (the extraction and the review of a script), the queue, the
-- text of an exception, the sender of events, the client that recalculates a tier (of which the
-- consumer needs that it touches only the project it is asked about and not what that one has
-- filed; it may take a mark away, as `recalc_tier` of the service does), and for a refresh the
-- fetcher, the blobs, the HTML reader, the digest, the difference of two texts and the model that
-- drafts. Where a snapshot is wrong in several ways, the validation may name another error than the
-- code does first, and the texts of its errors are left out. A number in a pack is not negative.
-- The classification chain has the snapshot service as a record of its reads, and Python's `str` of a
-- value that is not a text. Where the code iterates over a value that should be a list, the model
-- refuses any other value; Python would go through the characters of a text or the keys of a dict.
-- All loops are structural recursions. The only fuel is that of `print_nat`, which prints a number in
-- decimal: one more than the number, and a number has no more digits than that.
--
-- Not modelled: the file and the repository behind the snapshot service, uploads, extraction, review
-- sessions and the analysis of scripts, the adapters of the policy workers to cloud services, the
-- SQLite and Firestore stores, locks, HTTP, the web client and the language model adapters.
pub mod Base
pub mod Schemas
pub mod Errors
pub mod Gate
pub mod StateMachine
pub mod Forms
pub mod Classify
pub mod Store
pub mod Effects
pub mod Institution
pub mod Materials
pub mod Jobs
pub mod Policy
pub mod Roadmap
pub mod Workflow
pub mod Tests
