-- ===== src/Forward.antt =====
-- src/forward/: the handler of a packet and the event loop around it.
pub mod Datapath
pub mod Sticky
pub mod Delivers
pub mod Closed
pub mod Loop
pub mod Handled
pub mod Counts
pub mod Accounts
pub mod Flows
pub mod Agreement
pub mod Expiry
pub mod Tests
