-- ===== src/Lib.antt =====
-- The network namespace engine: a daemon (daemon/) keeps a configuration of entities, changes it by
-- transactions over the system bus, and starts the entities; the control program (control/) sends
-- the calls, and a process for each entity (entityd/) sets its network namespace up.
--
-- Base, Base/Action, Base/Text, Base/Int, Base/Order
--   Names of the standard library, tests on native numbers, actions that end with a result, an
--   exception or the end of the process, the cuts of text that the daemon makes, and the order in
--   which a std::map keeps its keys.
-- Json, Json/Tree
--   What the daemon uses of the vendored JSON library, as a record of operations with the
--   documented laws. Tree is one instance, on which the examples run.
-- Config/Names, Config/Validate, Config/Metadata, Config/Add
--   daemon/common_definitions.h and daemon/config.cpp. A Config is the flag _mutable and the JSON
--   value _configuration; a reference into it is the path of keys that leads there, and a call on
--   a reference reads and writes the value at this path, so that the effects of operator[] on a
--   missing key and the keys that the validation adds are kept. validate_entity, validate_network,
--   validate_metadata and add are _validate_entity, _validate_network, _validate_metadata and
--   config::add. The other modules of Config hold what is proved of them, from the checks of one
--   key (Checks) and the loop over the keys (Loop, Network) to entities (Entity, Components), the
--   storing of parameters (Store, Touches, Keys) and whole configurations (Kept, Valid, Sound,
--   Crash).
-- Config/Load
--   The constructor of a configuration from a file. Its loop goes over a map that the validation
--   extends: the model keeps the key that the iterator is at, and looks for the next one in the map
--   as it is by then. Steps, Frame, Framed, Visits and Ends show that it ends; Roles, Keeps, Rounds
--   and Sound what a file that is accepted has become; Claimed what becomes of the key that the
--   loop inserts itself.
-- Bus
--   The replies of daemon/async.h and the early ends of a method's coroutine. What the calls of
--   the bus library return is the input of a handler; co_yield log_and_reply_on_error is `check`.
--   Effects and Ends hold rules for handlers in sequence.
-- Bus/Signals
--   signal_subscription of daemon/async.h: the list of callbacks, `match`, and the handler of a
--   signal. Waiters holds what is proved.
-- Transactions/Transaction, Transactions/Manager
--   daemon/transaction.cpp and daemon/transactions.cpp: the methods of one transaction, and of the
--   manager, over the record of the two configurations and the table of open transactions. Run
--   makes histories of calls of them, and History is about the running configuration in them.
-- Hex
--   How the streams of the standard library print a number in base 16, and read it.
-- Control/Calls, Control/Verbs
--   control/main.cpp: each verb up to the one call on the bus that it makes, over what the option
--   parser returns. Arguments and Token hold what is proved. Validators is set_validator, which
--   no verb uses.
-- Entity/Queue
--   queue_awaitable and queue_token of daemon/entity.cpp: co_await enqueue() and the destructor of
--   the token, for one queue. Line holds what is proved.
-- Entity/Answers, Entity/State, Entity/Lifecycle
--   entity::start and entity::stop of daemon/entity.cpp, as one coroutine that runs while no
--   other one does. What the system, systemd and the entity's process answer is input, by the
--   name of the entity. The state is the table of live entities, the buses that the service
--   polls, the tokens that this coroutine and those that wait for it hold, and the calls of
--   AddComponent. Parts is about their parts; Supported, UplinkStarts, Starts and Stop about the
--   live entities; Finishes, Components, Total and Accepted about starts that come to their end;
--   Waits and Again about those that do not, and those that fail.
-- Entity/Interleaved
--   Several starts and stops at once, as a step relation on the tokens that the coroutines hold
--   and wait for, the flags of their queues and the live entities; a coroutine and those that it
--   waits for are one task. A token whose flag is not set may go to any task that waits for it,
--   which allows more than the order of Queue. Exclusive, Progress, Backed, Orderly, Refines and
--   Alone hold what is proved.
-- Entity/Controller
--   The methods Start and Stop of daemon/controller.cpp. Requests holds what is proved.
-- Service
--   daemon/service.cpp: the constructor, the set of polled buses and the loop, for a number of
--   rounds. What the bus library and the system return is input. Alive and Opens hold what is
--   proved.
-- Daemon
--   daemon/cli.cpp, daemon/configuration.cpp and daemon/main.cpp, with what config::install,
--   transactions::install and the constructor of the controller register on the bus: main from the
--   options to a number of rounds of the loop, which bring calls on the transactions
--   (Transactions/Attend); what other handlers change is not followed. Boots and Serves hold what is proved.
-- Entityd/Command, Entityd/Cleanup, Entityd/Network
--   entityd/main.cpp and entityd/cleanup.h. The state is the active component, the two cleanup
--   objects, the one of the function that runs, and the log of what was asked of the system, whose
--   answers are a parameter. The functions have their names in the source. Address, Undo, Active,
--   Setup and Shutdown hold what is proved.
-- Entityd/Main
--   main of entityd/main.cpp: the loop over the requests on the process's own bus, a round at a
--   time, and what it does at its end. Leaves holds what is proved.
--
-- The manager's loop for a free number takes the numbers of the random engine as a list; where all
-- of them are taken it is still running, which the replies tell apart from an answer. A start
-- takes one unit of fuel for each start along the uplinks, and the same for the uplinks'
-- components that it puts in place of their names; without fuel the start waits for ever and the
-- components end the process, as a circle of uplinks makes the source do. Fuel of two more than
-- the number of uplinks on the way is enough. The loop of the constructor of a configuration has
-- fuel of two more than the number of keys in the file, which is enough. No other loop has a bound.
--
-- Not modelled: the libraries under vendor/; the property getters of the objects on the bus;
-- logging; what the child process does before it becomes the entity's process; what the control
-- program prints.
mod Base
pub mod Json
pub mod Config
pub mod Bus
pub mod Hex
pub mod Entity
pub mod Service
pub mod Entityd
pub mod Transactions
pub mod Control
pub mod Daemon
