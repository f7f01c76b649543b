-- ===== src/Lib.antt =====
-- Wirestead: unified asynchronous serial, TCP, UDP and UDS communication.
--
-- Framer models wirestead/framer, the message framers that a wrapper puts over the bytes of a stream.
-- A framer is a record of the members of its class; `push_bytes` is the method of that name, on the
-- bytes of one call, and returns the framer after it. What `on_message_` is called with is recorded in
-- `delivered`. A callback is a function of the messages handed over so far, to whether it calls
-- `reset()`; a framer without a callback has `none`.
-- Framer/LengthPrefix is length_prefix_framer.{hpp,cc}, Framer/Line is line_framer.{hpp,cc}, and
-- Framer/Packet is packet_framer.{hpp,cc}. Framer/Search holds `std::search` and `memchr`.
--
-- Loops run on fuel. The length of the buffer bounds the rounds of each, and the theorems show that
-- the fuel is enough: they state that the call gives a framer, not only what holds if it does.
--
-- A byte is a number, and the theorems hold for numbers that are no bytes too. Sizes are natural
-- numbers. Subtractions of `size_t` that could wrap around are written with `sub_size`.
--
-- Not modelled: logging, allocation failures, and a callback that calls `push_bytes` of its own
-- framer or replaces the callback.
--
-- Transport models what the stream transports share on the write side, in wirestead/transport/base.
-- Transport/Reservation is the admission of writes of bp_utils.hpp: the atomics are a record
-- `Counters`. What other threads do to them during a compare-and-swap loop is a list with one entry
-- for each round; a loop that needs more rounds gives `none`. In Transport/Reservation/Limit the
-- operations are the steps of a relation, for any interleaving, and the reservations that plain
-- writes hold are a ghost beside the counters.
-- Transport/Gather is the gather writes and the trimming of bp_utils.hpp, and
-- Transport/Backpressure is bp_state_machine.hpp; what a transport passes in is an argument.
--
-- Diagnostics/Stats is wirestead/diagnostics/runtime_stats_counter.hpp. Counters wrap around at 64
-- bits, and the clock is an argument.
-- Diagnostics/Accounting and Diagnostics/Ledger are the accounting of sends, in
-- wirestead/wrapper/send_accounting.hpp and wirestead/diagnostics/send_accounting.hpp. A shared
-- handle of a group is a number into a store of groups. The numbers of requests and the epochs are
-- 64-bit counters that are taken not to wrap around; the counters of the totals may. Below
-- Diagnostics/Ledger, Find, Refine and Detach say which entry a number finds behind a change of the
-- ring, Weight gives sums over the entries, Conserve, Tally, Take and Put turn these into the
-- accounts, Admit, Waiting, End and Operations hold them over the operations, and Reach puts the
-- operations together.
--
-- Memory/Pool is wirestead/memory/memory_pool.{hpp,cc}: a buffer is the number of its allocation.
-- Memory/Pooled is PooledBuffer of the same files.
-- Wrapper/Receive is wirestead/wrapper/receive_budget.hpp and receive_limits.hpp: a scope is a number
-- and a charge names its scope, since scopes and charges share the counters of their budget.
-- Wrapper/Send is send_result.hpp, send_validation.hpp and fanout_result.hpp of the same directory.
-- The operations of the pool and the budget are again the steps of a relation, on the state and the charges or buffers that
-- live.
--
-- Transport/Reconnect is reconnect_decider.hpp and reconnect_policy.hpp of wirestead/transport/base;
-- a policy is an argument. Util/Hostname is hostnames and socket paths of
-- wirestead/util/input_validator.cc.
--
-- Transport/Session is the write side of wirestead/transport/tcp_server/tcp_server_session.cc: the
-- methods that admit writes, and in Transport/Session/Strand the handlers of its strand and how it
-- ends. It uses the admission, the gather writes, the state machine, the statistics and the ledger
-- above. Transport/Session/Steps is the relation of its steps. Within a step no other thread changes
-- the counters, so one round of an admission loop is given. Beside it, Progress, Pending, Steady, Exact,
-- Idle and Moving are about what waits in a session, Bounds about its limits, Answers about the answers
-- to writes, and Sends about its ledger.
--
-- The reads and timers of the sessions, the other transports, the wrappers over them and the
-- configuration are not modelled.
mod Prelude
pub mod Diagnostics
pub mod Framer
pub mod Memory
pub mod Transport
pub mod Util
pub mod Wrapper
mod Tests
