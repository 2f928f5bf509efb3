-- ===== src/Base/Bytes.antt =====
-- Byte strings as lists of numbers: slices, little- and big-endian integers, and signed integers by
-- their two's complement bits. A byte string is `Vec<u8>` or `&[u8]`; `slice i j xs` is `xs[i..j]`.
mod Slices
mod Endian
mod Signed
unfoldable pub use Slices.*
unfoldable pub use Endian.*
unfoldable pub use Signed.*
