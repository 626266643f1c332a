-- ===== src/Text.antt =====
-- Python's `str` as the list of its code points, with the methods that the program calls.
mod Basic
mod Case
mod Split
mod Search
mod Print
pub use Basic.*
pub use Case.*
pub use Split.*
pub use Search.*
pub use Print.*
unfoldable pub use Case.{lower_char, lower, is_space, strip}
unfoldable pub use Split.{split_on, join, partition, split_last}
unfoldable pub use Search.{starts_with, ends_with, rfind}
unfoldable pub use Print.{decimal, hexadecimal}
