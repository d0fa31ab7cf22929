-- ===== src/Checks.antt =====
-- Runs of the model on small inputs, and the theorems at concrete inputs.
mod Modems
mod Calls
mod Routes
mod Texting
mod Entry
mod Manager
mod Limits
mod Numbers
mod Messages
mod Contacts
