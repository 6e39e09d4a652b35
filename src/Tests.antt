-- ===== src/Tests.antt =====
-- The theorems at concrete inputs.
pub mod Sample
pub mod Boxes
mod Ping
mod FriendRequests
mod Receive
mod Send
mod Faults
mod Table
mod NetCrypto
mod Messenger
mod QuickSort
mod Dht
