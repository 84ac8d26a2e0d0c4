-- ===== src/Lib.antt =====
-- A verification library of the core of the scarcity router. Its selector decides, given a catalog of models, a
-- task's requirement, the user's policy and the capacity telemetry of the providers, which model is chosen, and
-- why each other one is not. Its registries keep what can be executed with its last observations, and the tool
-- calls that are suspended between two requests.
--
-- The parts, and the files of scarcity_router/ that they model:
--
-- * Types (selection_types.py): identifiers, dates, identities, requirements and catalog entries. A class is a
--   record, a closed set of words a data type, and `__post_init__` a function `check_...` that returns the
--   stored value or the error. `Types.SafeId.id_tail` is the regular expression of identifiers with Python's
--   `$`, which also matches before a line feed at the end.
-- * Capacity (capacity.py): windows, diagnostics and provider snapshots.
-- * Scarcity (scarcity.py): `Measure` has the penalty, the blend and the labels, `Contract` the checks of a
--   `ScarcityAssessment`, `Bindings` the loop of `assess_scarcity` over the bindings with the choice of the
--   governing window, and `Assess` its three ends.
-- * Policy (policy.py): unknown-capacity modes, reservations, weekly rules with their time windows and dates,
--   replenishment, and the container `UserPolicy`. Blackout and happy-hour rules have the same fields and
--   checks, so one record `WeeklyRule` stands for both.
-- * Selector (selector.py, with `ExecutionEligibility` of eligibility.py): `Tighten` merges requirements,
--   `Constraints` and `Capability` test an entry, `Evaluate` is the pipeline `_evaluate_candidate` over what
--   `Inputs` has, `Ranking` the key, `Decision` the checks of `SelectionDecision`, `Select` has
--   `assemble_evaluations` and `select_model`, with the orders of `Keyed`. `Pipeline.Expected` tells the stage that is to exclude a candidate by one test for each
--   stage, without running the pipeline, and `Preferences` names the inputs that only rank or inform.
-- * Resource (resource_state.py, runtime_version.py): what can be executed, as registered and as last observed.
--   `Registry` has the calls that change the registry, a dictionary of registrations and one of observations as
--   lists of pairs in the order of insertion; the clock that a call reads is an argument, a canonical text;
--   `apply_worker_report` takes one reading of it for all its observations, where the source reads it for each. `Reads`
--   has freshness, `refresh_due` and `registry_snapshot`. `Instant` gives a timestamp as milliseconds since the
--   year 1, by the calendar of Types; differences of `datetime` in seconds become differences of milliseconds.
--   `Contract` and `Checks` have the sort keys and the `__post_init__` checks, `Output` the rule for output limits,
--   and `Capture` the conversion of a capacity snapshot. Registered identities are the keys of the pools' members.
-- * Continuation (gateway_continuation.py): the registry of suspended tool calls. A record is an object that
--   callers hold too, so the registry maps a token to a reference and the objects stand in `cells`; a call is an
--   `Event`, and its `Reply` has the registry after it, what it returned or raised, and the callbacks that it
--   called. Every call makes its changes under the lock, so threads that interleave are a list of events. `close`
--   marks the record just after it lets go of the lock; that is taken as one step with the rest.
--
-- `Common` holds what they share: Boolean tests on the native numbers, lists, equality and order as instance
-- arguments, the stable sort that stands for `sorted`, and `Result` for code that may raise. An error keeps a
-- text for the reader, shorter than the message of the source. `Samples` has the data of the witnesses, which stand in
-- the `Samples` of each part.
--
-- State and calls: the selector is pure, and a call of a registry returns the registry after it. `select_model` takes its inputs as one record `Inputs`; it calls
-- `evaluate_candidate` for each entry in the order of identities, that calls `evaluate_blackouts`,
-- `evaluate_hard_constraints`, `evaluate_capability_sufficiency`, `assess_scarcity`,
-- `apply_unknown_capacity_mode`, `apply_replenishment_mode`, `evaluate_reservation` and
-- `evaluate_happy_hours` in this order, and `assemble_evaluations` sorts what they return.
--
-- Loops are structural recursion on lists, so there is no fuel. Integers of the source are unbounded; those
-- that are never negative are native numbers, and the checks against negative values have no counterpart.
--
-- Parameters: the time zone data of the standard library is a function `Zones` from a zone's name and an
-- instant to the local time, which may raise. An aware `datetime` is the instant that it names, a number.
-- Whether a zone's name can be loaded, and the list of reason codes of eligibility.py, are arguments of the
-- checks that ask.
--
-- The registry of resources feeds on the telemetry of Capacity, by `resource_snapshot_from_capacity`, directly or in a
-- worker's report; the routing core, which is not modelled, reads it through `registry_snapshot`.
--
-- Not modelled: reading and writing JSON (`from_dict`, `to_dict`), the guards on the Python type of a value,
-- the checks that `GoverningWindowEvidence`, `HardConstraintFailure` and `CapabilityFailure` repeat when the selector
-- builds them from validated inputs, the rendered texts in failures and errors, the field `capability_margin`, which the pipeline always leaves
-- empty, the receipt `mi_use`, and the rest of the program, which acquires telemetry, serves requests and
-- keeps stores.
pub mod Common
pub mod Types
pub mod Capacity
pub mod Scarcity
pub mod Policy
pub mod Selector
pub mod Continuation
pub mod Resource
pub mod Samples
