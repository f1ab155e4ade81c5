-- ===== src/Worker.antt =====
-- pyreljob/worker.py: the executor. A coroutine of the worker is a sequence of calls of the backend;
-- what anybody else commits, the other coroutines of the worker included, comes between them.
pub mod Action
pub mod Failure
pub mod Attempt
pub mod Execute
pub mod Rules
pub mod Frame
pub mod Settled
pub mod Start
pub mod Ran
pub mod Active
pub mod Compensated
pub mod Retries
pub mod Resumed
pub mod Unresolved
pub mod Poll
pub mod Heartbeat
pub mod Recorded
pub mod Registry
pub mod Tick
pub mod Rearmed
