-- ===== src/Core.antt =====
-- core/: the event loop's parts beside the byte buffer and the timers: the channels of file
-- descriptors, the poller that keeps them registered, and the loop with its queue of tasks.
pub mod Channel
pub mod EpollPoller
pub mod EventLoop
pub mod ThreadPool
