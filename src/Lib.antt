-- ===== src/Lib.antt =====
-- A verification library for nvme-disk-mon, a daemon that watches how much is written to NVMe
-- disks. Two monitors feed one database writer. The SMART monitor reads the written-data counter
-- of each disk once per detection window, stores it, and raises an alert when the growth over a
-- whole window is above a threshold. The writer collector reads the I/O counters of all cgroups
-- every few seconds and attributes the growth per minute ("bucket") to workloads; a bucket of a
-- device is stored only if nothing was missed in it. Both hand batches to a bounded queue, and a
-- single thread writes them to SQLite, with retries.
--
-- Which file models what:
-- - Common: helpers, and the types that stand for those of Rust. Numbers are natural numbers or
--   integers, and each checked operation of the source is written with its bound (Common/Int); a
--   String or a path is its bytes (Common/Text); a HashMap or HashSet is an association list
--   (Common/Maps).
-- - Config: src/config.rs. Config has its data, Config/Paths the paths below /dev/disk/by-id,
--   Config/Check `validate_config`, and Config/Load `load_config_from` with the checksum and the
--   fields that have to be there.
-- - Writer: `CollectorState` of src/writer/collector.rs. Writer/Types has its data, Writer/Marks
--   `bucket_start`, `new`, `mark_all`, `update_device_mappings` and `resolve_scan_incomplete`,
--   Writer/Deltas `calculate_deltas` and `accumulate`, Writer/Close `close_current_bucket`, and
--   Writer/Collector `process_scan`. Writer/Task is one iteration of `WriterCollector::run`, and
--   Writer/Boundary the `WriterBoundaryTracker` by which the alert waits for a bucket. Writer/IoStat
--   is `parse_io_stat` and Writer/Names `canonical_workload_name`, with the paths of the standard
--   library in Writer/Paths.
-- - Monitor: src/monitor/mod.rs. Monitor/Delta has `classify_smart_delta`, Monitor/Threshold
--   `bytes_strictly_exceed_gib` on the bit pattern of an f64, Monitor/Schedule
--   `utc_minute_nearest_window`, Monitor/Device the methods of `SmartMonitorDevice`, and
--   Monitor/Task the body of the loop over the devices of `SmartMonitorTask::run`. Monitor/Smart is
--   src/monitor/smart.rs: the device numbers (with those of src/writer/history.rs) and the log, Sysfs
--   what is read below /sys, and Resolve `resolve_nvme_target` and `read_verified_smart`.
-- - Database: src/database. Database/Batch and Database/Errors have the data of mod.rs,
--   Database/Validate the checks of task.rs, Database/Process its transaction and its loop of
--   attempts, Database/Rows the rows of SMART samples, Database/Recovery
--   `decode_data_units_written`, Database/Identity the hashes, table names and registrations of
--   devices (schema.rs), and Database/Submit `submit_inner` of mod.rs.
-- - Mail: src/mail. Mail/Errors and Mail/Message have the data of mod.rs; Mail/Smtp is the connection
--   of smtp.rs with the log of what passes over it, and below it Reply reads replies, Ehlo the
--   capabilities, Auth the responses of AUTH, Open the beginning of a session and Submit
--   `submit_mail_blocking` with `dot_stuff` (Mail/Stuffing); Mail/Send has the loops of mod.rs that
--   send and validate over sessions, and Mail/Oauth is `acquire_token` of oauth.rs: the checks and the
--   decision about the cached token, the requests to the server (Requests) and the whole (Acquire).
-- - Daemon: the end of `run_daemon` of src/main.rs, `supervise_long_tasks` with the shutdown that
--   keeps the first failure; an iteration is a `Poll` of what the channel, the flag to stop and the
--   handles give.
--
-- A method with `&mut self` takes the state and returns the new one. What comes from outside is an
-- argument: the clock, the flags to stop, the answers of SQLite (Database/Process), the queue and
-- the acknowledgements (Database/Submit), the controller (Monitor/Task),
-- the file system below /sys and /dev (Monitor/Smart/Sysfs),
-- the sockets and the replies of the server (Mail/Smtp), the file of the configuration (Config/Load),
-- the channel and the handles of the tasks (Daemon). SHA-256 is a parameter of
-- the hash of a device (Database/Identity). Log messages are left out. Loops are recursion over
-- the list that they walk; the attempts of a request and the replays of a submission are recursion
-- over the number that is left, two behind the first one in both cases, so that no run ends for
-- want of fuel.
--
-- Not modelled: the command line (src/cli.rs) and the start of the daemon (src/main.rs), the authorization by a browser
-- (src/mail/oauth.rs) and the builder of messages, the ranking of
-- writers (src/writer/history.rs), the SQL of src/database/schema.rs with startup and recovery,
-- the layout of the ioctl of src/monitor/smart.rs, the walk over the cgroups, and the alert of
-- src/monitor/mod.rs.
pub mod Common
pub mod Config
pub mod Daemon
pub mod Database
pub mod Writer
pub mod Monitor
pub mod Mail
