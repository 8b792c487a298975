-- ===== src/Delivery.antt =====
-- app/delivery: how a message gets to a user. The children hold the channels, the outbound queue
-- of app/db/repo.py, the dispatcher that drains it, the verification of a destination, and the two
-- ways out, the links in emails and the replies to text messages.
pub mod Channels
pub mod Queue
pub mod Dispatcher
pub mod Verification
pub mod Devices
pub mod Unsubscribe
pub mod TwilioInbound
