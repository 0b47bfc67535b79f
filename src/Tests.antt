-- ===== src/Tests.antt =====
-- Concrete queues, commands and interrupts, and each theorem with hypotheses applied to them.
pub mod Data
mod Control
mod Check
mod Submission
mod Completion
mod Memory
mod Interrupt
mod Requests
mod Create
