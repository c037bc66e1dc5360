-- ===== src/Application.antt =====
-- src/chain/application.rs: the application at one peer, which handles the effects of the consensus
-- library. `Messages` has the library's data types, `Channels` the queues that all peers share.
pub mod Messages
pub mod Channels
pub mod Handlers
pub mod Publish
pub mod Print
pub mod Rule
pub mod Results
pub mod Outcome
