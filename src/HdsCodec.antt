-- ===== src/HdsCodec.antt =====
-- hds_codec.py: the HomeKit Data Stream serialization. The modules follow the file: values, tags,
-- `Encoder`, `Decoder`, and what was proved of them.
pub mod Value
pub mod Words
pub mod Tag
pub mod Encoder
pub mod Decoder
pub mod Tracking
pub mod Exact
pub mod Literals
pub mod References
pub mod Scalars
pub mod Sequences
pub mod Entries
pub mod Containers
pub mod RoundTrip
pub mod Integers
pub mod Leaves
pub mod Progress
pub mod Ends
