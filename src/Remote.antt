-- ===== src/Remote.antt =====
-- remote.py: `AppleTVHomeKitRemote`, the accessory's state behind the HomeKit characteristics. The
-- children are the target configurations, the state with what it calls, the handlers, and the proofs.
pub mod Target
pub mod State
pub mod Control
pub mod Media
pub mod Valid
pub mod Handlers
pub mod Buttons
pub mod Writes
pub mod Removal
pub mod Requests
pub mod Atomic
pub mod Accepts
pub mod SetupReply
pub mod SetUp
pub mod Streams
pub mod Sessions
pub mod Events
pub mod Exclusive
pub mod Utterances
pub mod Watching
pub mod OneUtterance
pub mod Press
pub mod Saving
pub mod Arranged
pub mod Loading
pub mod Loaded
pub mod SavedTarget
pub mod Saved
pub mod Config
pub mod Life
