-- ===== src/Lib.antt =====
-- A verification library for mailbox: a mail client whose daemon keeps a local copy of the mail of
-- each account (the Mirror) and a queue of the mail to be sent (the Outbox).
--
-- The parts and how they interact:
--   Outbox (internal/outbox): the queue is one table. A command or the daemon enqueues a mail; the
--     Courier claims it, hands it to the submission server, records the answer, and files a copy.
--     At a start of the daemon, the mails that a dead process left at the server are held.
--   Mirror (internal/mirror): the tables of folders, messages, placements and the sync journal.
--   MailSync (internal/sync/mailsync): plans, from two numbers, what to do with a folder, asks the
--     server, and writes the answer to the Mirror in one transaction; and writes through to the
--     Mirror what the server acknowledges of a change.
--   Routing (internal/routing): which sender's mail goes to which box.
--   DavSync (internal/sync/davsync, internal/mirror/dav.go): calendars, task lists and address
--     books. It discovers the collections of the servers, brings each up to date in one transaction
--     that stores the objects with their token, and writes through what the server accepts.
--   Daemon (internal/daemon/id.go): the ids by which a caller names a message, printed and read.
--   Bubble (internal/bubble, and bubble.go of internal/mirror and internal/daemon): a thread is set aside
--     with a keyword that names when it is due, and brought back to the Inbox when it is.
--   Habit (internal/habit): what is practised on which days, and the days it was done.
--
-- Files and the code that they are about:
--   Prelude/Tests, Lists, Strings, Words, TextOrder, Cuts, Trimmed, Decimal, Numerals: Boolean tests,
--     lists, texts and their order, strings.Fields and strings.Join, strings.Index, fmt's %d and
--     strconv's reading of it.
--   Outbox/Types, Store, Queue: internal/outbox/outbox.go. A World is the rows of the table with the
--     environment; an operation of type M is one method of Outbox, its statements in their order.
--     The names are those of the methods in snake case (Claim is claim, byState is by_state).
--   Outbox/Courier: internal/outbox/courier.go (Deliver is deliver, with deliver_as for its switch
--     and settle for what follows the answer; Drain is drain, with file_all and send_all for its two
--     loops).
--   Outbox/Rows, Runs, OneRow, Delivery, Sending, Unheard, Unique, Draining, Handover, Once,
--     Settled, History, Recovery, RoundTrip: the proofs about them.
--     Handover is the interface between an invariant and the operations: what each kind of
--     statement has to keep, and, from that, that every operation keeps it.
--   Mirror/Types, Tx, Messages: internal/mirror/types.go, write.go and Folder of mirror.go. A
--     statement is a function of the Mirror.
--   Mirror/Forget: internal/mirror/forget.go. Mirror/Placements: the proofs about placements.
--   MailSync/Plan: internal/sync/mailsync/plan.go; MailSync/Types: driver.go.
--   MailSync/Place, Reconciler: reconciler.go (apply with perform for its switch, resync is rebuild,
--     incremental is incremental_cycle and, for its transaction, write_cycle). MailSync/Sweep:
--     SyncAll (sync_all, with sweep for its loop) and inOrder.
--   MailSync/Writer: write.go (setFlags is change_flags with stored for its transaction; Move is
--     move, with move_folder for the function that it passes to perFolder).
--   MailSync/Server: what the driver relies on of a server, stated as Honest (it answers from one
--     state) and Advanced (CONDSTORE and uids, RFC 7162 and RFC 3501).
--   MailSync/Decision, Writes, Rebuilt, Counting, Changes, Cycle, Converges, Current, Failures,
--     Committed: the proofs about a cycle of one folder. Others, Apart, InOrder, Listed, Everywhere: about a
--     cycle over many. Relocate, Moved, Folders, Homed: about writes.
--   Routing/Destinations, Lists: internal/routing/routing.go (Destination, specOf, ParseDestination,
--     Lists.Of and Lists.Set; the two regular expressions are read as tests on characters, and the
--     titles in the script are left out). Routing/Decided: the proofs about them.
--   DavSync/Types, Store: internal/mirror/dav.go and ForgetCollection of forget.go. A Shelf is the two
--     tables, of one account. DavSync/Reconciler: davsync.go (Sync is sync, with commit for its
--     transaction, and Project is project). DavSync/Discover: Discover, with record_found and prune
--     for its loops, and SyncKinds. DavSync/Urls, Writer: write.go (Put is put, with settle for the
--     object that is read back; Href is object_href; absolute).
--   DavSync/Server: what the reconciler relies on of a server, stated as Honest. DavSync/Held, Filled,
--     Converges, Unsent: the proofs about one sync. Kinds: about the syncs of many collections.
--     Pruned, Left, Kept: about discovery. Rooted, Written: about writes.
--   Routing/Rules: rules.go and keys of routing.go. Routing/Senders: how internal/graphdrv/rules.go asks
--     for a domain, as a text in the address. Routing/Keys, Kept, Delivered, Enforced, ReadBack: the
--     proofs about lists and rules. Delivered has a server that runs the rules in their order, with its
--     test for domains as a parameter.
--   Daemon/Ids: internal/daemon/id.go, with the accounts of account.go. Daemon/Boxes, RoundTrip, Resolve,
--     Taken: the proofs about them, on Prelude/Cuts, Numerals and Trimmed.
--   Habit/Record: internal/habit/habit.go, but for its JSON; a day back from today is a function of how
--     many days. Habit/Streaks, Days, Week: the proofs about it.
--   Clock/Calendar, Layout: what the code uses of Go's time package: times on the wall clock, their
--     calendar, and Format and ParseInLocation for the parts of a layout. Clock/Printed, Months, Ordered,
--     Days: the proofs about them.
--   Bubble/Keyword: internal/bubble/bubble.go. Bubble/When: bubbleWhen of internal/daemon/bubble.go and
--     the functions of when.go that it calls. Bubble/Due: internal/mirror/bubble.go, and bubbleRows.
--     Bubble/Return: setBubble, bringBack, returnDue and stripBubble, over the Writer of MailSync.
--     Bubble/RoundTrip, InOrder, ReadTimes, Weekdays, Ahead, DueIn, Views, Kept, Away,
--     Home: the proofs about them.
--   Tests, SendingTests, SweepTests, RuleTests, DiscoverTests and Fixtures: runs at concrete inputs,
--     and the theorems at such inputs.
--
-- Choices. Numbers are natural numbers; the code only compares and counts uids and modseqs, and adds
-- one to counters. Texts are lists of code points, and lower case is that of ASCII. Instants are
-- seconds, but a bubble's is a reading of the wall clock, in one zone whose clock is never put forward or
-- back. Which statements of the Outbox fail, what the clock says, and what the two servers answer
-- is a function of the number of the statement or call, so a theorem holds for every failure; whether the
-- submission server took a mail is known where the sending succeeds, and a part of the environment where
-- it ends in an error (Send of internal/smtpdrv/smtpdrv.go also fails if QUIT does); a
-- process that dies is one whose statements fail from there on. A statement of the Mirror does not
-- fail, so what Sync of davsync rolls back where one does is not modelled; a transaction that fails
-- elsewhere is rolled back. ORDER BY id is the order of the table,
-- which only grows at its end, and the code reads the rows of the queue through one connection. The
-- only fuel is that of printing a number in decimal (its value and one, which its digits do not
-- exceed). A limit is not negative. What is added is reported in the order of the uids, where the
-- code ranges over a map, and the colours of the configuration are ranged over in the order of a
-- list; the keywords that a new bubble replaces are stripped in the order in which they are met, where
-- the code ranges over a map. An Outcome that comes with an error is left out.
--
-- Not modelled: opening and migrating the files, the reads for listings and search, correspondents
-- and labels; the handler of bubbles, the ticker of bubbleLoop, and what is told to listeners; the text
-- of the Sieve script and its parser, AddressOf; the regular expression of forwarder.go and the
-- conversion of HTML to text (functions of the driver, which no theorem says anything about); the
-- listings of calendars, tasks and contacts, the rest of the daemon, the command line, and the protocol
-- drivers.
pub mod Prelude
pub mod Outbox
pub mod Mirror
pub mod MailSync
pub mod Routing
pub mod DavSync
pub mod Daemon
pub mod Habit
pub mod Clock
pub mod Bubble
