-- ===== src/Binutil.antt =====
-- pkg/utils/binutil/bytes.go: reading and writing words in the four byte orders of a device, and
-- packing of Booleans. A byte slice is a list of numbers, and `none` is a panic of the run time
-- (an index out of range).
pub mod Word
pub mod Parse
pub mod Encode
pub mod Write
pub mod Bools
pub mod Float
