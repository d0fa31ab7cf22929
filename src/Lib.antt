-- ===== src/Lib.antt =====
-- A verification library of SimBridge, the bridge between a GSM modem behind Asterisk and Telegram.
--
-- The agent of SimBridge accepts calls and messages from both sides. This library models the logic of
-- core/ on which it rests and the routes of agent/ that use it, in the order in which the parts use
-- each other:
--
--   * Prelude - what the parts share: tests, lists, sorting, texts as lists of code points, and the
--     functions on characters of Python's str and re by the tables of Unicode 15. Dict is Python's
--     dict as an association list in the order of insertion.
--   * Modem (core/modem.py) - the states and snapshots of a modem. Modem.Provider is
--     SingleModemProvider, whose state is derived from the fields that were reported (_derive_state).
--     Modem.Routing has the strategies, first-available and round-robin. Modem.Pool is ModemPool: over
--     any provider, which is the interface Provider with the one operation list_modems, a selection
--     takes a READY modem that is not reserved and reserves it. Modem.Pool.Single instantiates the
--     interface by SingleModemProvider.
--   * Metrics (core/metrics.py) and Audit (core/audit.py, core/events.py) - the counters and the
--     records that the call registry writes.
--   * CallControl (core/call_control.py) - CallControl.State has the states and the two transition
--     tables, CallControl.Machine is CallMachine, whose transition raises InvalidTransition (here it
--     returns none). CallControl.Registry is CallRegistry with its creation and cleanup of calls,
--     which select from the pool and release to it, or count reservations when there is no pool.
--     CallControl.Operations has the operations that move one call, CallControl.Monitor those that
--     look at all calls: time-outs, fast forward, termination. CallControl.Trace runs any sequence of
--     these and of the one write that a route makes to a stored call (call_set_gsm_channel).
--   * SmsCorrelation (core/sms_correlation.py) - the records of outgoing messages in memory and in the
--     log file; SmsCorrelation.Matching is match_report.
--   * Phone (core/phone.py) - normalize_e164, is_service_number and parse_destination.
--   * Blacklist (core/blacklist.py) and Acl (core/acl.py) - two files that are edited by hand, each
--     with a copy in memory that is read again when the modification time differs. The blacklist is
--     also written.
--   * RateLimit (core/ratelimit.py), Recovery (core/recovery.py) and Alerting (core/alerting.py) - the
--     sliding window, the retry loop with the watchdog, and the cooldowns.
--   * UserContacts (core/user_contacts.py) - the phone book of each Telegram user, over Phone;
--     Contacts (core/contacts.py) - the names of numbers from the CSV cache and the service numbers.
--   * Agent (agent/routes.py, agent/deps.py, agent/ami_client.py, core/errors.py) - Agent.Auth has the
--     checks that a request passes first: token, address, replay. Agent.Ami has the texts that
--     AMIClient writes and the messages that it reads, Actions and Devices what its methods send and
--     make of them. The rest are the handlers of the HTTP routes. Agent.Calls has the state that the
--     call routes share: the registry, the ACL, the blacklist, the limiter, and as lists the audit
--     records of the routes, the hangups asked of AMI and the posts to the userbot. Its children
--     Placing, Single, Complete and TimeLimits have the handlers, Serving runs any sequence of
--     requests. Agent.Sms does the same for the routes of messages and of the blacklist: Sending,
--     Delivery, Serving. Agent.Errors is core/errors.py, Agent.Http the result of a handler: an
--     answer, an HTTPException with its status and detail, or another exception.
--   * Checks - runs on small inputs and the theorems at concrete inputs.
--
-- How state and effects are modelled. Objects are records that operations take and return; a dict of
-- objects that are changed in place is a Dict whose value is replaced. An exception is a result: none,
-- an err of CallControl.Registry.Result, os_error of Blacklist.Outcome. A lock makes each operation
-- one step, and interleavings are sequences of such steps. Clock readings are natural numbers in ticks
-- of the clock, and `a - b > c` on them is written without the subtraction; ISO time texts, drawn
-- identifiers and the success of a write are arguments. The answers of AMI are a function of the
-- requests that it got so far; the posts to the userbot are recorded and their outcome, which is only
-- logged, is not. A handler is one step: the model does not interleave two handlers at an await. A
-- file is its lines, as the reading program splits them, with its modification time.
--
-- Fuel. Apart from the digits of a number (show_nat: more units than digits), only the retry loop of
-- Recovery takes fuel, one unit for each attempt; the theorem about it shows that max_retries units
-- are enough (one, if max_retries is 0). Every other loop of the model runs over a list; the reading
-- of the device list stops at the code's own AMI_DRAIN_CAP of 1024 messages.
--
-- What is not modelled: the sockets, the start-up and the background tasks of agent/, the routes that
-- only read (modems, calls, health), the checking of request bodies, the Telegram commands of
-- userbot/, the scripts, the installers, the dialplan, JSON, YAML and CSV syntax, logging, and the
-- rendering of the metrics. They call the parts above, or are input and output.
pub mod Prelude
pub mod Dict
pub mod Modem
pub mod Metrics
pub mod CallControl
pub mod Audit
pub mod Checks
pub mod RateLimit
pub mod Phone
pub mod SmsCorrelation
pub mod Blacklist
pub mod Recovery
pub mod Alerting
pub mod Acl
pub mod UserContacts
pub mod Contacts
pub mod Agent
