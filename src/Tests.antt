-- ===== src/Tests.antt =====
-- The theorems applied to small inputs, and runs of the model.
pub mod Decoder
pub mod Numbers
pub mod Memory
pub mod Slot
pub mod Loader
pub mod Services
pub mod Task
pub mod Objects
pub mod Life
pub mod Pipeline
pub mod Stream
