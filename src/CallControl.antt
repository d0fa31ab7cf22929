-- ===== src/CallControl.antt =====
-- core/call_control.py
pub mod State
pub mod Creation
pub mod Accounting
pub mod Legs
pub mod Trace
pub mod Monitor
pub mod Operations
pub mod Registry
pub mod Lifecycle
pub mod Machine
