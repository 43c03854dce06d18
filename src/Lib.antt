-- ===== src/Lib.antt =====
-- Verification of the Nanihold kernel: the operational ledger, the Kernel that decides and records
-- commands, the activation of a DataSpace, the replay of the ledger that gives both their state back,
-- the names of agents, and the owner's codes and sessions.
--
-- The program keeps a viable system model for one owner. A `Kernel` (vsm/kernel/service.py) holds
-- WorkItems, Executions, Effect Leases, findings, RouteSnapshots, names and notifications. Each of
-- its commands tests its arguments against that state, records one event in an append-only ledger
-- (vsm/kernel/ledger.py) through `_record`, and then writes its state. An `ActivationService`
-- (vsm/activation/service.py) shares the ledger, and decides when effects may run at all.
-- After a restart an `OperationalProjection` (vsm/projection.py) goes through the ledger and calls the
-- handler of each event. An `AgentNameRegistry` (vsm/agent_naming.py) issues the names that the Kernel
-- records. An `OwnerBootstrapService` (vsm/auth.py) shares the ledger too, and exchanges a code for a
-- session of the owner's browser.
--
-- Parts and files:
-- - Prelude, Prelude/Tests, Prelude/Lists: names of the libraries, Boolean tests, lists.
-- - Result: the exceptions of vsm/errors.py as values, guards in do blocks, and `Ensures`, which says
--   that a result, if it is one, has a property. Dict: Python's dictionaries, in insertion order
--   (Dict/First: the first value with a property).
-- - Ids: vsm/ids.py. Models and its children: the data of vsm/kernel/models.py,
--   vsm/activation/models.py, vsm/agent_naming.py and vsm/notifications.py, with those validators
--   that the theorems read.
-- - Ledger: `InMemoryOperationalLedger`; each method returns its result and the new ledger. Its
--   children: the invariant, repeated appends, the place of an event, paging.
-- - Activation: the state of `ActivationService` and `_record`; Activation/Commands and
--   Activation/Assessment have its methods, as a `Move` (event and writes); Activation/Methods runs
--   them; Progress, Steps, Evidence and Import have their theorems. Activation/Queries:
--   `HistoryToolService.resolve` of vsm/activation/reorientation.py, over a reader of the history.
-- - Kernel: the state of `Kernel`, split in the `Registry` that commands write and the rest, with
--   `_record` as `record_event`. Grants, Work, Graph, Executions, Effects, Findings, Routes, Names,
--   Notifications and Import, below it, have one function for each command, which gives a `Plan`: the
--   arguments of the `_record` call, the registry after the writes, and the error with which they
--   end, if they do. `run` records and writes.
--   `promote_agent_notification` and `import_current_work_graph` are whole functions.
-- - Kernel/Commands: the commands as a data type, and `execute`; below it, Frames (which command
--   writes what), Running (from plans to executions), and a module for each invariant.
-- - Kernel/Filing: under which ids the registry has its records; Kernel/Late: which commands can
--   raise after their event. Activation/Recording,
--   Kernel/Recording, Kernel/Atomic: what a run records. Kernel/Reachable: the states that the steps
--   of Kernel and activation lead to.
-- - Projection: `apply` and the loops of `rebuild`, over a Kernel and the versions that the other
--   services count. Projection/Records and Projection/Milestones have the handlers of the events of
--   the Kernel and of the activation. Commands, Receipts, Replay and Moves compare a handler with the
--   operation whose event it takes; Kinds tells which events these are; Events, Tracking,
--   Plans, Steps, Queries and History follow the replay through the operations; Rebuild is about the loops,
--   Recovery about a restart.
-- - Naming: `AgentNameRegistry`. Naming/Suffixes and Naming/Allocation are about the search for a new
--   name, Naming/Identities about names in use, Naming/Restoring about names that are restored.
-- - Owner: the methods of `OwnerBootstrapService`, as a `Step` (event, writes and answer); Owner/Codes
--   is about a code that is used and the session that it opens.
-- - Samples: values, and the theorems tried on them.
--
-- Parameters. `json.dumps`, `hashlib.sha256`, pydantic's `model_dump_json` (`dump`), `str.split` and
-- the decimal text of a number are arguments. Of `dump`, some theorems ask that it tells the stream
-- and the version of an event (`TellsPlace`), as a JSON text of all fields does. A reading of the
-- clock is an argument of the command. The lookups by which the Kernel asks the agent-name
-- registry are arguments as well, and so is Python's `strip().lower()` where a candidate is read. What
-- `secrets` and `new_id` draw in vsm/auth.py is an argument of the method. The reader of LETHE's
-- history, the JSON bytes of what it gives and their digest are arguments of its queries.
--
-- Fuel. The search for a cycle has as fuel the number of edges and two: each edge is pushed at most
-- once, and a round more is needed for the first element and for the empty list. `rebuild` has the
-- number of events and one: each page but the last, which is empty, has an event. The search for a
-- suffix has the number of names in use and one: each round but the last meets one of them.
--
-- Not modelled: locks, since each method runs as one step; the field constraints of pydantic, other
-- than those of `EventEnvelope`, and the validators of grants, sessions, snapshots of the Work Graph and notifications; `new_id`, which is
-- random; methods that only read (`status`, listings). The events of the
-- interface service, of routing evidence, of the Token Lab, of the owner bootstrap and of imported
-- legacy data have no handler here, nor have the
-- pages of the session index that reorientation.py records. Payloads are values of
-- a data type, so that their decoding, and the older flat form of a notification, are left out. The
-- dispatcher, routing statistics, the loop of reorientation, environments, the interface service and everything
-- that reads files, runs processes or speaks HTTP stand outside this library.
pub mod Prelude
pub mod Result
pub mod Dict
pub mod Models
pub mod Ids
pub mod Ledger
pub mod Activation
pub mod Kernel
pub mod Projection
pub mod Naming
pub mod Owner
pub mod Samples
