-- ===== src/Lib.antt =====
-- The measurement core of the MDMS: from raw meter reads to final measurements, and on to usage and
-- bills.
--
-- A raw read is mapped to a canonical measurement. app/services/processing_core.py gives each canonical
-- measurement one initial measurement, and app/services/vee.py validates it: ten rules, some of which
-- read the meter events that app/services/event_context.py finds around the measurement, produce hits;
-- hits open exceptions, and exceptions raise alerts in app/services/operational_events.py. Operators
-- acknowledge and resolve exceptions or have a measurement evaluated again;
-- app/services/correction_policy.py says which corrections they may make. A measurement that is
-- accepted and has no active blocking exception is finalized by app/services/finalization.py, one
-- revision after the other, in runs that app/services/pipeline.py records together with watermarks.
-- app/services/vee_replay_requests.py queues the measurements with active exceptions for another
-- validation, and app/services/vee_replay_processor.py works on them: for each, one call of
-- app/services/processing_replay.py evaluates the measurement again, finalizes it and calculates the
-- usage again that it changes. app/services/installations.py keeps where a device is installed, and
-- app/services/tariff_assignments.py which tariff a service point has.
--
-- app/services/usage.py adds final measurements up to one usage row for each day and month,
-- app/services/bill_determinants.py turns a monthly row and the billing context of its service point
-- into a determinant, and app/services/bill_charges.py a determinant, a tariff and a rate into a charge.
-- Determinants and charges are revised, not changed: a row that differs is added as current and the old
-- one retired. app/services/downstream_recalculation.py runs the three after a final measurement has
-- changed.
--
-- Files:
--   Prelude          native numbers, Boolean tests, lists, texts, integers; the queries of the services
--                    over a table (Table), and what queries and updates keep (Queries, Some, Ids,
--                    Unique)
--   Model            app/models.py: the codes of text columns as enumerations, rows as records
--   Store            the session as one record of tables; relationships as lookups
--   Ops              operational_events.py (Rows, Catalogue, Events, Alerts) and pipeline.py
--                    (Pipeline); theorems in Laws, Steps, Watermarks and Frame
--   EventContext     event_context.py; theorems in Lookup
--   Vee              vee.py: Rules and Evaluate (the rules), Baseline (executions and exceptions),
--                    Actions (operators); theorems in Hits, Values, OneActive, Reach, Blocking,
--                    Reevaluation, Repeat and Resolution
--   ProcessingCore   processing_core.py; theorems in Initials
--   Finalization     finalization.py, the run over selected rows in Batch; theorems in Lineage,
--                    Revision, Repeat, Counts, Run and Blocked
--   CorrectionPolicy correction_policy.py; theorems in Agreement
--   Installations    installations.py; theorems in Invariant
--   TariffAssignments tariff_assignments.py; theorems in Periods, Changes and
--                    Schedule
--   ReplayRequests   vee_replay_requests.py; theorems in Active and Targets
--   Usage            usage.py: Windows (time zones, days and months), Buckets, Calculate; theorems in
--                    Totals, Payloads, Uniqueness and Accepted
--   Billing          Rows and Store (the tables); Revisions, the loop that bill_determinants.py and
--                    bill_charges.py share; DeterminantPayloads and Determinants,
--                    ChargePayloads and Charges, and Money (decimals); theorems about
--                    the loop in Laws, Loop, Tallies, Keys and Kept, about the calculations in
--                    Determinants/* and Charges/*, and about decimals in Money/Bounds
--   ProcessingReplay processing_replay.py: Windows and Reevaluate; what recalculation keeps in Keeps
--   Downstream       downstream_recalculation.py; what the calculations leave alone in Frame,
--                    theorem in Billed
--   VeeReplayProcessor vee_replay_processor.py; what each step leaves alone in Frame and Untouched,
--                    Requests and Finish, and the queue in Drain
--   Scenarios        a small store and runs of the services on it
-- A function has the name of the Python function that it models, without a leading underscore, and
-- takes the store and returns it changed. The clock, of the program and of the database, is an
-- argument, `now`. An error that Python raises is a value of a result type.
--
-- How the data is modelled:
--   * A timestamp is a number of microseconds in UTC, and a window of minutes is compared by sums. A
--     decimal with four places, and the multiplier, is an integer of ten-thousandths.
--   * A text is its list of code points; `strip` removes Python's whitespace, and `lower` and `upper`
--     change ASCII letters only.
--   * A text column that holds a code is an enumeration of the values that the services write. So an
--     unknown event code and the fallback summary code cannot occur.
--   * A table is the list of its rows. `session.get` and relationships are lookups by id, `LIMIT 1`
--     without an order takes the first row, and an insert gets an id above all ids of the table. A
--     comparison with a NULL column is false, and `== None` is a test for NULL.
--   * A session does not flush before a query (autoflush is off in app/db.py). So where a loop adds
--     rows and flushes at its end, its queries read the table as it was before the loop. A flush that a
--     unique constraint refuses leaves the store of the caller.
--   * A product of decimals is rounded to 28 digits, and a rescaling that needs more is an error, as in
--     Python's default context; sums of usage are exact. The digits of a product are counted with fuel
--     20, which is enough as a product of stored numbers has at most 47 digits.
--   * The time zone database is a parameter, `Zones`, and so is the text of an exception that a failed
--     replay stores.
--   * Every other loop runs over a list, and the loop over the queue runs as often as the limit says.
--
-- What is not modelled: message texts and the free JSON `details` (but the event snapshots, rule hits,
-- the details of a hit, and what charges read in the details of a determinant are; of a provenance the
-- replay context is left out), and the columns batch_id and hes_system_id of events, which are filled
-- for display; the parsing of form fields in installations.py and tariff_assignments.py, where a time
-- arrives as empty, unreadable or a time; a session that fails, and rows that another session writes in
-- between. The services for estimation, manual edits, billing contexts, invoices, export and ingestion,
-- the pages and the API are outside these files.
pub mod Prelude
pub mod Model
pub mod Ops
pub mod Store
pub mod EventContext
pub mod Vee
pub mod ProcessingCore
pub mod Finalization
pub mod CorrectionPolicy
pub mod Installations
pub mod TariffAssignments
pub mod Usage
pub mod Billing
pub mod ProcessingReplay
pub mod Downstream
pub mod VeeReplayProcessor
pub mod ReplayRequests
pub mod Scenarios
