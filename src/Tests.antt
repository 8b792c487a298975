-- ===== src/Tests.antt =====
-- Runs of the theorems at concrete inputs.
mod AccountTests
mod AgentTests
mod DeliveryTests
mod ServiceTests
mod RequestTests
mod ReplyTests
mod BookTests
