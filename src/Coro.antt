-- ===== src/Coro.antt =====
-- coro/: what the coroutines wait for. The coroutines themselves are C++'s: a handle is a number.
pub mod Awaitable
