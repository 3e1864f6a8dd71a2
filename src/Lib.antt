-- ===== src/Lib.antt =====
-- rtlfarm: what the server makes of a submitted design.
--
-- A design directory holds an `rtlfarm.yaml`. The file is parsed into a pipeline and its rules are
-- checked (`Pipeline`); the directory is packed into a manifest (`Pack`, `Manifest`); a submission gives the
-- manifest a selection, and `expand` turns the two into the complete graph of the job's tasks
-- (`Dag`), with ids that are composed of the parts of a task (`Ids`); one transaction writes the job
-- with its tasks and dependencies (`Submit`). Every task that a job will ever have is made there, so
-- what is shown of `expand` holds of the job for its whole life. The recorded state is checked against
-- the invariants of the state machines (`Invariants`). The bytes of every file are uploaded before, to
-- a store that is addressed by content (`Blobs`).
--
-- Which file models what, with paths from the repository's root:
--   Prelude    Python's values and calls: `Result` with the exceptions, `dict` as its items in order
--   Ids        src/rtlfarm/ids.py: `validate_name`, `task_id`, `attempt_id`; Ids/Ulid has `new_ulid`
--   Models     src/rtlfarm/models.py: the models and their bounds; Models/Seeds has
--              `_expand_seed_range`
--   Pipeline   src/rtlfarm/expand/pipeline.py: `_has_cycle` here, `_semantic_issues` in Pipeline/Rules,
--              `parse_pipeline` and `_pointer` in Pipeline/Parse
--   Json       the data that `json.dumps` prints
--   Manifest   src/rtlfarm/expand/pack.py: `Manifest` with its methods
--   Pack       src/rtlfarm/expand/pack.py: `pack` and `target_issues`; Pack/Paths has the tests on
--              patterns and paths, Pack/Collect the loop over roles, globs and paths
--   Submit     src/rtlfarm/control/routes/jobs.py: Submit/Tables has the tables that
--              src/rtlfarm/db/migrations/0001.sql declares, with INSERT under their constraints,
--              Submit/Write `_write_job` and `_replay`, Submit/Sizes `_stored_sizes`,
--              Submit/Checks `_manifest_from`, `_resolve_digest` and `_check_sizes`,
--              and Submit/Handler `submit`, which composes them under `Database.write` of
--              src/rtlfarm/db/connection.py
--   Wire       src/rtlfarm/control/wire.py: the rule on the path of a submitted file
--   Config     src/rtlfarm/config.py: `validate_timing`; Config/Layers has `load_config` and what it calls
--   Invariants src/rtlfarm/control/invariants.py: `check_invariants` with a function for each rule;
--              Invariants/Kahn has `_has_cycle`
--   Blobs      src/rtlfarm/control/blobstore.py: the store; Blobs/Ingest has `ingest`, Blobs/Steps its
--              interleavings; Blobs/Routes has src/rtlfarm/control/routes/blobs.py
--   Auth       src/rtlfarm/control/app.py: the token checks and `assert_bind_allowed`
--   Migrate    src/rtlfarm/db/migrate.py: `load_migrations`, and `apply_migrations` with its transactions
--   Sorting    Python's `sorted`, and the order of texts
--   Dag        src/rtlfarm/expand/dag.py: Dag/Select, Dag/StageOrder, Dag/Tasks and Dag/Expand
--              model it; the other files under Dag prove what they are named for
--
-- How the code is read:
--   * An exception is a value of `Exception`; a call that may raise returns a `Result`.
--   * A `dict` is its items in insertion order; `IsParsed` says that it holds a key once.
--   * A name, a digest or a ULID that a regular expression matches whole is a Boolean function on
--     the text's code points.
--   * Seeds, caps, counts and times are natural numbers. The HTTP schema and the models bound each
--     from below, so the guards against negative ones never fire.
--   * A float is its bit pattern: the program passes it on and computes nothing with it,
--     the timing constants of `Config` excepted.
--
-- Bounds. `visit` recurses at most as deep as there are stages, since a path holds a stage once: its
-- fuel is the number of stages and one. `_stage_order` takes a stage away in each round: its fuel is
-- the number of stages. That both are enough is shown, not assumed. CPython's own limit on recursion is
-- not modelled: `_has_cycle` ends in a RecursionError on a chain of several hundred stages.
--
-- The loop of `_has_cycle` in invariants.py removes a node in each round: its fuel is the number of
-- nodes. `_stored_sizes` takes at least one digest away in each batch: its fuel is the number of
-- digests. A download, and `hash_file`, read at least a byte in each round: their fuel is the length of
-- the file. `sqlite3` binds integers of 64 bits: a row with a greater one raises OverflowError.
--
-- Parameters, for code that is not in the repository: pydantic's `model_validate` and `model_dump`,
-- `json.dumps` and SHA-256 (`Codec`), the random bits of `os.urandom`, and the directory that is packed
-- (`Tree`): what a glob yields in it and which patterns `root.glob` refuses, what the file system says
-- of a path, the bytes of a file, and hashlib's SHA-256; the ids of `uuid4`, SQLite under the
-- migrations, Python's numbers and parsers of texts under `load_config`, what `ipaddress` says of a
-- host, and float arithmetic (`Floats`).
--
-- Not modelled: fsync, errors of the operating system, opening a connection, a BEGIN or COMMIT that
-- SQLite refuses in `Database.write`, the pattern of
-- `timeout_sim`, reading the YAML file, the read routes of jobs, `read_dotenv` and the command line.
pub mod Auth
pub mod Blobs
pub mod Config
pub mod Dag
pub mod Ids
pub mod Invariants
pub mod Json
pub mod Manifest
pub mod Migrate
pub mod Models
pub mod Pack
pub mod Pipeline
pub mod Prelude
pub mod Sorting
pub mod Submit
pub mod Wire
