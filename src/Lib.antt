-- ===== src/Lib.antt =====
-- A model of the pothole detection server (app/), which takes sensor events and camera frames from
-- mobile devices, rates their senders, and fuses both kinds of detection.
--
-- The parts and their files:
-- - Prelude: names and small functions that all files share; Prelude/Texts has `Text`, a list of code
--   points, for Python's `str`.
-- - Http: the `HttpException`s of the handlers with their details, and `Outcome`, a value or a raise.
-- - Headers: app/dependencies.py, the headers X-Device-Id and Accept-Version.
-- - RateLimit: app/middleware/rate_limit.py. `prune_and_increment` and `check_rate_limit` take the time
--   of the clock in microseconds and return the new store. RateLimit/Log replays a log of calls.
-- - Float: what the code does with a `float`, as an interface; Float/Laws the facts of IEEE-754 and of
--   `math` that proofs rely on; Float/Fixed a number type that meets them.
-- - Schema: the rows of the tables asset_observation and asset_frame, and Python's `datetime`.
-- - Events: app/models/__init__.py and app/services/event_service.py. `insert_events` runs the loop
--   over a transaction, whose abort and commit are those that PostgreSQL documents.
-- - Files and Frames: app/models/frames.py and app/services/frame_service.py. `store_jpeg_local` has a
--   fault at each point where the file system can fail.
-- - Routes: app/routes/events.py and app/routes/frames.py over the state that the endpoints share.
-- - Features: app/sensor_model/features.py.
-- - Engine: app/fusion/engine.py, matlab_port_v1.py, python_v1.py and registry.py.
-- - Sensor: app/sensor_model/model.py and score.py; Sensor/Fit has fit.py. `fit_models` is the part of
--   `fit_sensor_model` after the standardization.
-- - Json: JSON values, and what a database keeps of them; Json/Tidy a transport that keeps them.
-- - Sensor/Store: app/sensor_model/store.py with the JSON of model.py. Sensor/Store/Table has the table
--   sensor_model, Sensor/Store/Active, Copies and RoundTrip what is kept in it.
-- - FitJob: app/fusion/service.py, `run_fit_job`. Its two queries read two snapshots, between which
--   events may arrive. FitJob/Models says how it ends, FitJob/Serves what the saved model is good for,
--   FitJob/Fuses what the next fusion job does with it.
-- - Fusion: app/fusion/service.py, the fusion job. Fusion has the rows and the queries as functions on
--   lists, Fusion/Run the loops, Fusion/Job the transaction and the lock;
--   Fusion/Backlog counts the frames that wait, Fusion/Job/Drain follows them through many runs.
--   Fusion/Job/Blocked follows an observation that raises in the scorer.
-- - Cluster: app/fusion/service.py, the clustering job. Cluster has the tables and statements,
--   Cluster/Members the two queries over the members, Cluster/Job the loop, the transaction and the
--   lock; Cluster/Lists, Groups, Rows, Claims, Turn, Links, Outcome, Runs and Total what follows.
-- - App: app/database.py and app/fusion/scheduler.py as functions on the state of the process;
--   App/Lifespan is `lifespan` of app/main.py as a step relation with its failures, App/Orderly what
--   holds in every state, App/Health app/routes/health.py, App/Cors `cors_origin_list` of app/config.py.
-- - System: the worker processes that the Dockerfile starts, over one database. System/Shared has the
--   data, System/Workers the limiter and the jobs of each worker and the advisory locks; System has the
--   moves: a request, the tick of a job, the next transaction of a job, and the end of a process.
--   System/Evolves, Turns and Sound follow the data, Locks and Exclusive the locks, View, Whole, Release
--   and Pairing the fusion job, Durable the requests. Fusion/Ids, Scores and Refers,
--   Fusion/Job/Keeps, Events/Ids and Changes, Frames/Ids, Routes/Ids, FitJob/Active and Cluster/Keeps
--   say of each part what these need.
-- - Defaults: the defaults of app/config.py, and what they make sure of.
-- - Samples and the Examples below each part: runs, and theorems at concrete inputs.
--
-- How they interact: an endpoint reads the headers, charges the limiter, and hands validated data to a
-- service, which writes the tables and files. The engines use the features. The fit gives a sensor
-- model, which the fit job saves; the fusion job loads it, scores observations with it, pairs frames with
-- observations, and fuses each pair. The clustering job gathers observations into clusters. The lifespan
-- makes the pool and schedules the three jobs on it. In System all of this happens at several workers,
-- in any order: between two transactions of a job anything else may happen, and a worker may end at any
-- time, which releases its advisory locks. From the load of the active model to the save, a fit job is
-- one move, and so is the clustering job from its second query on.
--
-- Parameters of the model, which the code calls and does not define: `fromisoformat` of `datetime`, the
-- refusal of a row by PostgreSQL, `json.loads` with pydantic's reading of the fields, `json.dumps`, the
-- upload to Supabase, numpy, scipy, sklearn and joblib, the way of a JSON value through JSONB, the
-- distances and ST_ClusterDBSCAN of PostGIS, the aggregates of SQL over floats, the cosine, `uuid4`, the
-- floats with `exp` and `log`, and the clocks.
-- sklearn checks the input of the forest, and `takes` says which numbers it lets pass. Fusion/Job and
-- Cluster/Job have what refuses the row of a run: its primary key, and JSONB, which has no NaN and no
-- infinity. In Events the insertion of a row may fail with a PostgresError or another exception.
--
-- Bounds: every loop goes over a list, but for `str` of a number, whose digits take the number and one
-- more as fuel, enough for `int` to read it back. Integers of Python are unbounded, and those that the
-- model has are not negative. Times are microseconds; the comparison of a bucket with the cutoff adds
-- the window to the bucket in place of a subtraction from the time. A path is compared as it is spelled.
-- A header is Latin-1.
--
-- Not modelled: logging, FastAPI's routing, APScheduler's timing of the jobs, the concurrency of two
-- transactions, each of which is one move of System, and the reading of settings from the
-- environment. The column created_at of asset_cluster is left out, and so are the pooler of
-- DATABASE_USE_POOLER, as a connection of the model is a session of the database, and the arguments
-- that `create_pool` hands to asyncpg. An error of the database itself in a job or at a COMMIT is left out. A window of days is 24 hours times their number. The order in
-- which the database returns the candidates of a run is open; here it is that of the frames.
pub mod Prelude
pub mod Http
pub mod Headers
pub mod RateLimit
pub mod Float
pub mod Schema
pub mod Events
pub mod Samples
pub mod Json
pub mod Sensor
pub mod System
pub mod Defaults
pub mod Fusion
pub mod FitJob
pub mod Cluster
pub mod App
pub mod Files
pub mod Frames
pub mod Routes
pub mod Features
pub mod Engine
