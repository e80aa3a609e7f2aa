-- ===== src/Lib.antt =====
-- voipbill: the billing of a telephone call.
--
-- A call has an originating and a terminating leg. `BillingCall::calc`
-- (src-bill/classes/BillingCall.cpp and BillingCall_nnp.cpp) finds for a leg its trunk, numbers,
-- destination, service, account, tariff and price, the billed seconds, the seconds that free
-- minutes and packages pay for, and the cost. The managers of counters
-- (src-bill/classes/Stats*Manager.cpp), which DataBillingContainer holds, keep what each service
-- has used: `calc` asks them for the counter of the leg, and after it `addCall` charges the
-- seconds of the leg to that counter. Before a call, `RadiusAuthProcessor` bills its first minute,
-- asks whether the account may pay for it, and finds the trunks it goes to.
--
-- Files and the code they are about:
-- - Prelude, Map, Text: native numbers and integers, std::map and std::set as lists of entries, C
--   strings. Text also has the search for the longest prefix of src-bill/lists/MobPrefixList.h and
--   GeoPrefixList.h.
-- - Models: the structs of src-bill/models. A field has the name of the source's in this notation.
-- - Time: get_tday, get_tday_end, get_tmonth and get_tmonth_end of src-bill/common.cpp.
-- - Stats: Ledger is what StatsFreeminManager.cpp, StatsPackageManager.cpp and
--   StatsNNPPackageMinuteManager.cpp share; Freemin, Package and Minute are the rest of each.
--   `getCurrent` is get_current, `add` is add, `updateStats...` is use_freemin, use_package and
--   use_minutes.
-- - Billing: Monad has the state and the results of `calc`; Repository is the interface to the
--   tables; Numbers, Cost, Packages, Setup, Nnp and Length are the methods of BillingCall, and
--   Calc composes them as the source does. A method such as setupFreemin is setup_freemin.
-- - Billing.Loop: Billing::calc of src-bill/classes/Billing.cpp, which bills the two legs of every
--   record of the queue.
-- - Calls, Cdrs: src-bill/classes/CallsManager.cpp and CdrManager.cpp, the queues of legs and of
--   records. Calls.Queue has the steps of the threads.
-- - Container: src-bill/data/DataBillingContainer.cpp, which splits the legs and the counters of
--   all managers into partitions, and saves and removes the oldest one.
-- - Stats.Account, Stats.TrunkSettings: StatsAccountManager.cpp and StatsTrunkSettingsManager.cpp.
-- - Mega: src-bill/classes/StateMegaTrunk.cpp, with what it asks of the repository as the
--   interface Tables.
-- - Lists: the lists of src-bill/lists that routing searches, and the searches of
--   src-bill/classes/Repository.cpp over them.
-- - Auth: src-bill/classes/RadiusAuthProcessor.cpp, which answers a request of the switch to begin
--   a call. Filters, RouteTable, Limits (analyzeCall), Terms (getAvailable...ServiceTrunk), Answer
--   (processOutcome) and Process (init and process) are its steps; Settings
--   (getTrunkSettingsOrderList) and Orders, the prices of the trunks and their order, are of
--   Repository.cpp, with models/Price.h. A method such as processRouteTable is
--   process_route_table.
-- - Locks: `push`, `get`, `getChanges` and `fixChanges` of src-bill/lists/ClientLockCounter.h, and
--   `save_client_locks` of src-bill/threads/ThreadSyncLocks.cpp. `get` leaves a blank lock of a
--   client that was not there; Locks.Order has the order of the clients, and Locks.Marks the marks
--   of what is to be sent.
-- - Samples: concrete values for the modules called Examples.
--
-- How the code is read:
-- - An `int` is an unbounded natural number or integer; a bound on a result is a theorem where
--   there is one, and Billing.Length also has getCallLength with the `int` of its sum, as
--   call_length_int. A `double` is a type with an interface of operations (Models.Double) and no
--   law. The rounding of StatsPackageManager.cpp is that of the exact quotient.
-- - A pointer is an Option. Following a null pointer, or `vector::at` out of range, is the result
--   `fault`; a CalcException is `thrown`, keeps what was found so far, and `calc` catches it.
--   Tracing is off.
-- - `numberPreprocessing` reads rules until one is missing: `rules` bounds how many, and running
--   out of the bound is the result `fault`. The calendar goes year by year on the day as fuel,
--   which is enough since a year has more than one day. Times before 1970 in the zone are read as
--   1970.
-- - For the billing the lists of src-bill/lists are functions of the interface Repository, those
--   of prefixes excepted, and for the settings of a trunk those of SettingsTables, and so are the
--   choices among nnp packages in setupNNPPackagePrice, setupNNPPackagePricelist and
--   setupNNPPackageMinute. The answers of StateMegaTrunk.cpp are an argument of `calc`, which
--   Billing.Loop fills from Mega.
-- - The locks of the container make each of its operations one step. A save is several steps, and
--   Calls.Queue lets the other threads add legs between any two of them; a failed transaction
--   writes nothing. The legs are written in one transaction, which the model takes as one list of
--   legs.
-- - What the code would do with no partition left, the exception of `vector::at` or the removal of
--   the first of none, is `none` where legs are concerned; the counters then stay as they are. The
--   INSERT into the central table of locks is the parameter `insert_rows`; what it does to rows
--   that are there is left open.
-- - In Auth an `Exception` is `thrown`, and `process` catches it. processRouteTable is on fuel,
--   for the depth of the tables: more than the rank of a table is enough where no table leads back
--   to itself, and without that the code does not end. `std::stable_sort` is written out;
--   `std::sort`, which leaves open where equal prices go, and `std::random_shuffle` are arguments.
--   So is the billing of the call, which Auth.Process.Leg fills with Billing.Calc. The erased
--   iterator of the blocked accounts is read as if it went on.
-- - The loop of Billing::calc is on fuel, one round for each record and one for the end of the
--   queue. It is one step of the model: the source locks the records round by round, and the
--   records that ThreadFetchCdr.cpp may load while it runs are left out.
--
-- Not modelled: loading and the text of SQL statements, the rest of the threads, the web and
-- RADIUS servers, the black lists, the counters of active calls, logs, and the vendored libraries
-- in libs.
pub mod Prelude
pub mod Map
pub mod Text
pub mod Models
pub mod Time
pub mod Stats
pub mod Auth
pub mod Billing
pub mod Calls
pub mod Cdrs
pub mod Container
pub mod Lists
pub mod Locks
pub mod Mega
pub mod Samples
