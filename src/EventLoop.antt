-- ===== src/EventLoop.antt =====
-- src/event_loop.rs and src/event_loop: the parts of the loop that runs the user-space TCP/IP stack.
pub mod Dns
pub mod Ports
pub mod Socket
pub mod Published
pub mod Outbound
pub mod Tick
pub mod Run
