-- ===== src/Hds.antt =====
-- hds.py: the accessory's side of the HomeKit Data Stream, its pending sessions and its messages.
pub mod Message
pub mod Framing
pub mod Replies
pub mod Server
pub mod Connection
pub mod Life
pub mod Sealing
pub mod Answers
pub mod Futures
pub mod Served
pub mod Receiving
pub mod Handling
pub mod Waiting
pub mod Pending
pub mod Closing
pub mod Accepting
