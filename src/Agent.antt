-- ===== src/Agent.antt =====
-- agent/routes.py with core/errors.py: the handlers of the HTTP routes; agent/deps.py: the checks before
-- them; agent/ami_client.py: the texts of the AMI client.
pub mod Errors
pub mod Http
pub mod Auth
pub mod Ami
pub mod Calls
pub mod Sms
