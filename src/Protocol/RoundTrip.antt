-- ===== src/Protocol/RoundTrip.antt =====
-- `deserialize` after `serialize`, for the messages of `file_messages.h` on a little-endian host and
-- for the online list of `online_messages.h`.
pub mod Offer
pub mod Reply
pub mod Transfer
pub mod Files
pub mod OnlineList
