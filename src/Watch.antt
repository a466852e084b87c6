-- ===== src/Watch.antt =====
-- src/watch: the hub that hands the events of applied commands to the long polls that wait for them.
pub mod Hub
pub mod Poll
pub mod Delivery
pub mod Activity
pub mod Answers
pub mod Clock
pub mod Endings
pub mod Resumption
pub mod Continuity
