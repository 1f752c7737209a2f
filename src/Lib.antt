-- ===== src/Lib.antt =====
-- A verification library for DarkStream, a distributed video converter: a master keeps the queue of conversion
-- jobs in SQLite and hands jobs to workers over HTTP.
--
-- The parts, and the files that model them (paths of the source from the repository's root):
--  * Models: the jobs, heartbeats, progress reports and settings of video-converter-common/models and the names
--    in video-converter-common/constants.
--  * Tracker: video-converter-master/internal/db/tracker.go. `Store` is the database: the tables jobs, workers,
--    job_progress and worker_configs, and `faults`, which says call by call whether the driver refuses. `M A` is
--    a method of the tracker: it takes the store, and gives a result or an error and the store afterwards.
--    `statement` is one call of the driver, `in_transaction` one transaction. Jobs, Lookup, Claim, Workers and
--    Settings hold one definition for each method of tracker.go (CreateJob is create_job and so on); Rows,
--    Outcomes, Order, Batch, Assignment, Fetching and Respects hold lemmas; Claims, Claiming, Filling and
--    Exclusion are about ClaimNextPendingJobs.
--  * Lifecycle: the abstract state machine of a job (`Phase`, `Edge`, whose parameter says whether jobs are
--    handed out, finished ones brought back and rows deleted, and `MonitorEdge` for the background monitors) and
--    the invariant `Inv` of the jobs table. Lifecycle/Lawful says what it is for a method to implement the
--    machine; the other children show it for the methods of the tracker.
--  * Metrics: the gauges, counters and webhooks that the master touches, as values.
--  * Coordinator: video-converter-master/internal/coordinator/coordinator.go. The bodies of the loops of
--    monitorWorkerHealth and monitorFailedJobs, and the insertion of scanned jobs.
--  * Server: video-converter-master/internal/server/http.go. A handler takes the decoded request and is a method
--    of `M` that gives a `Response`. Assign has GetNextJob and GetNextJobs; Reports has JobComplete, JobFailed
--    and WorkerHeartbeat; Operator has RetryFailedJobs, RetryJob, RequeueJob, UpdateJobPriority, PruneJobs,
--    ListJobs and getJob; Cancel has CancelJob and CancelJobs; Fleet has PauseWorker, ResumeWorker and
--    HandleWorkerAdmin; Submit has submitJob; Limiter has the rate limiter; Video has DownloadVideo with
--    parseByteRange and serveVideoRange, Upload has UploadVideo; Settings has HandleWorkerSettings, JobProgress
--    and GetJobProgress. Verdicts is about the answers, Lawful about the state machine.
--  * Client: video-converter-worker/internal/client/master_client.go. Retry is the loop of the four transfers,
--    three attempts on a state of the caller's choice; Download is downloadSourceVideoAttempt, on the file at the
--    output path, with what the network and the file system do in an attempt as a `Weather`.
--  * Containment: ValidatePathWithinBase and ValidatePathInAllowedDirs of video-converter-common/utils/file.go.
--    FilePath is what they use of path/filepath on Unix, with the working directory as a parameter.
--  * Scanner: video-converter-master/internal/scanner/scanner.go. A tree is the listing that ReadDir gives, with
--    the directories that cannot be read; `Disk` is what the scan asks of the system. Walk is scanWithDepth, with
--    the jobs and the checksums so far.
--  * Config: video-converter-master/internal/config/manager.go. Manager has the state and the operations, with
--    JSON as a parameter; Checks and Valid are about validateConfig, Persisted about updates and restarts.
--  * Text: fmt.Sprintf and fmt.Sscanf for decimal numbers, over code points.
--  * Service: the master as a whole, a sequence of requests through the middlewares, of ticks and scans. Traces
--    has the powers that each event gives and the invariant, Pauses and Finished are about jobs that stay as they
--    are.
--  * Worker: video-converter-worker/internal/worker. Cache has the CacheManager of cache_manager.go, with the
--    file system as a parameter; Polling has getAndUpdateBackoff of worker.go, Pool has processJobs as steps of
--    its loops and of the goroutines that they start, Execute has executeJob and processJob.
--  * Scenarios: sample stores, tests and the theorems at concrete inputs.
--  * Common: lists over the native numbers, sorting, Boolean tests.
--
-- What is assumed of code that is not in the repository: SQLite carries out each statement as its SQL says; a
-- refused statement changes nothing, and a transaction that is not committed changes nothing; RowsAffected,
-- ROLLBACK and the scan of a row succeed when the statement did; among rows that ORDER BY does not tell apart
-- the one that was inserted first comes first; paths are those of Unix; foreign keys are not enforced, which
-- is SQLite's default. HTTP decoding gives a request or fails; what the file system and SHA-256 say to
-- submitJob is in the parameter `Paths`.
--
-- Choices: times are whole nanoseconds. The master's clock is that of UTC; a heartbeat has the wall clock of
-- its worker, whatever its offset, which is what the query for active workers compares. SQLite compares in
-- whole seconds. A tick or a request reads the clock once. Floating-point readings are scaled to whole
-- numbers. Priorities and counts that the program makes itself are not negative; integers that a request
-- carries unchecked are `ℤ`. Loops are structural recursion over the lists that the code ranges over, so no
-- fuel is needed, except that the printer of decimal numbers takes the number itself, which is no less than
-- its number of digits. Text of error messages is left out of the answers, and the message that fmt.Sprintf
-- builds is a parameter. A row with an unknown status cannot be written by the program, so `Status` has the
-- five that it writes.
--
-- Not modelled: the web interface, the command line client, logging, the Prometheus exporter, delivery of
-- webhooks, FFmpeg and Vulkan, the schema and its migrations, start and shutdown, the watcher of the file
-- system; of the worker's client the upload and the requests for jobs; and of the server the streams, the
-- statistics and the handlers of the global configuration.
pub mod Common
pub mod Text
pub mod FilePath
pub mod Containment
pub mod Scanner
pub mod Config
pub mod Models
pub mod Tracker
pub mod Lifecycle
pub mod Metrics
pub mod Coordinator
pub mod Server
pub mod Client
pub mod Service
pub mod Worker
pub mod Scenarios
