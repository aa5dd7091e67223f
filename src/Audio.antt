-- ===== src/Audio.antt =====
-- audio.py: `OpusEncoder` and `SiriSession`, one utterance sent over a Home Data Stream connection.
pub mod Session
pub mod Steps
pub mod Order
pub mod Handed
pub mod Orderly
pub mod Calls
pub mod Drained
pub mod Complete
