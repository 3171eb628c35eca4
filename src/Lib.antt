-- ===== src/Lib.antt =====
-- Verification of the iCloud mailbox service: the store behind its Hide My Email deletions, the outbox
-- of messages to be marked as seen, the schedule of automatic creation, the settings of accounts, and
-- the plain text of mail.
--
-- An administrator asks for mailboxes to be deleted at Apple. The request becomes a job
-- (internal/store/alias_deletion_queue.go) whose items subscribe to pieces of work, one for each
-- address of an Apple identity. A worker (internal/hmesync) lists the heads of the queue, claims one,
-- reserves one of the 200 deletions that Apple allows in a rolling hour
-- (internal/store/alias_deletion_quota.go), calls Apple and saves the result under its claim. A
-- result is published to every job that subscribes, each with an audit record for each item.
--
-- The files:
--   Store/Encoding: sanitizePostgresText (internal/store/encoding.go) and truncate
--     (internal/store/audit.go).
--   Store/Quota: internal/store/alias_deletion_quota.go. The two tables are `Tables`; reserve,
--     mark_sent, commit, release, defer_quota and get_quota are the methods Reserve-, Mark…Sent,
--     Commit-, Release-, Defer- and GetAliasDeletionQuota. Bounds has the transactions as the steps
--     of a relation `Reach`, over a clock that goes forward.
--   Store/Deletion/Types: the rows of the queue (internal/domain/alias_deletion.go,
--     internal/domain/alias_deletion_queue.go and the schema of alias_deletion_queue.go).
--   Store/Deletion/Normalize: normalizeAliasDeletionJob (internal/store/alias_deletion_job.go).
--   Store/Deletion/Snapshot, Publish: what the transactions share: getDeletionJobTx,
--     writeDeletionSnapshotTx, auditDeletionItemsTx, publishDeletionWorkTx, cancelDeletionJobTx,
--     cancelUnwantedDeletionWorkTx, pruneDeletionSubscriptionsTx, deletionWorkWantedTx.
--   Store/Deletion/Queue, Enqueue: the transactions: ListAliasDeletionQueueHeads (list_heads),
--     ClaimAliasDeletionWork (claim), SaveAliasDeletionWork (save), CancelAliasDeletionJob (cancel),
--     AliasDeletionWorkWanted (work_wanted), RecoverAliasDeletionQueue (recover) and
--     EnqueueAliasDeletionJob (enqueue).
--   Store/Deletion/Jobs: the jobs of the legacy queue (internal/store/alias_deletion_job.go):
--     CreateAliasDeletionJob (create_job), GetAliasDeletionJob (read_job), SaveAliasDeletionJob
--     (save_job), InterruptAliasDeletionJobs (interrupt_jobs), ClearCompletedAliasDeletionJobs
--     (clear_completed), and the latest and the active job. Legacy: the theorems.
--   Store/Deletion/Frames, Order, Held, Pruning, Fifo, Arrivals: the order of the work table, kept by
--     every statement and transaction. Runs, Heads, Claims, Recovery: what follows from it.
--     Requests: a repeated request. Stored and Cancelling: what a snapshot and a cancellation leave
--     of a job.
--   Store/Seen: internal/store/seen.go. Consume is ConsumeLatestMessage, its transaction apart from the
--     lookup before it (consume_tx), since the tables may change between them; Tasks has
--     ListSeenTaskAccountIDs (list_accounts), ListSeenTasks (list_tasks) and DeleteSeenTasks
--     (delete_tasks). Snapshot, Queued, Once, Deleting, Listing and Accounts: the theorems.
--   Domain/Mailbox, Imap: internal/domain/mailbox.go, imap.go and normalize.go, over Texts, what they
--     use of Go's package strings. Plain, Suffix and Endpoint: the theorems.
--   Store/Creation: internal/store/alias_creation_schedule.go: GetAliasCreationSchedule (get_schedule),
--     ListDueAliasCreationSchedules (list_due), EnableAliasCreation (enable), DisableAliasCreation
--     (disable), casAliasCreationPlan (cas_plan) with RescheduleAliasCreation and ClaimAliasCreation,
--     RecordAliasCreationSuccess and RecordAliasCreationFailure.
--   Store/Groups: internal/store/mail_group.go: CreateMailGroup (create_group), UpdateMailGroup
--     (update_group), DeleteMailGroup (delete_group), SetAliasGroup (set_alias_group), SetAliasesGroup
--     (set_aliases_group), GetMailGroup and GetMailGroupByName. Members and Consistency: the theorems.
--   Autocreate: internal/autocreate/manager.go. Plan has the plans: generatePlan, newPlanStartingAt,
--     planAfterClaim, shiftCurrentPlan. Manager has processDue, in parts: `decide` up to the claim,
--     `start` for the correction behind it, `finish` for what follows the creation; and SetEnabled.
--     Steps has the statements of several workers as the steps of a relation `Reach`; a step may decide
--     on an old copy of the schedule. Deadlines and Decisions: what the plans are. Swaps, Beginnings,
--     Cooling, Spacing, Started, Moves and Apart: the distance of creations. Courses has the runs that
--     a turn may take and its calls of the creator; Called and Turns: processDue is such a run.
--   Syncer/SeenWorker: internal/syncer/seen_worker.go: groupSeenTasks (group_seen_tasks),
--     processAccount (process_account), processPending (process_pending), the delay of wait, and the
--     turns of Run between two waits (drain), which run on fuel. Batches, Rounds, Listed and Draining:
--     the theorems; one turn more than there are tasks is fuel enough.
--   HttpServer: internal/httpserver/html_text.go. Writer is plainTextWriter and singleLinePlainText,
--     Elements and Attributes the tests on elements, HtmlText the loop of plainTextFromHTML over the
--     tokens of its source. Words, SingleLine, Clean, Rendered and Skipping: the theorems.
--   Base: texts, results, and the SQL statements on tables that are lists of rows.
--
-- How the code is modelled. A transaction is a function from the tables to a result: an error rolls
-- it back, so that the tables stay. A transaction holds the lock of its table from its first
-- statement on, so that a history is a sequence of transactions. A time is a number of nanoseconds
-- since 1970 and a zero time is 0, or `none` where the code tests for it; the clock is read once in
-- a transaction. A text is a list of code points. A JSON column is the list that it encodes. The
-- loops are over lists of rows and need no fuel, but for `drain`. Parameters stand for what the
-- source does not define: `strings.ToLower` (to_lower), `norm.NFKC` (nfkc), `net.ParseIP`
-- (parse_ip), the tokenizer of golang.org/x/net/html (tokenize), the calls of the workers to Apple
-- and to mail servers, and the random IDs of claims (token) and of work (new_id). Where a theorem
-- relies on what ToLower does to ASCII texts, it says so as a hypothesis (LowersAscii).
--
-- Not modelled: failures of the database, contexts and deadlines, overflow of the clock, and the
-- numbers below 0 that the columns could hold. Errors are values without their text, and logging is
-- left out. The deletion worker, the polling loops, the synchronization of mail, the HTTP API, the
-- updates of accounts, the Apple client and the migrations are not modelled.
pub mod Autocreate
pub mod Base
pub mod Domain
pub mod HttpServer
pub mod Store
pub mod Syncer
