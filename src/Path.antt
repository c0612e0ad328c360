-- ===== src/Path.antt =====
-- Path names: taking them apart, putting them together, and searching for files.
pub mod Chars
pub mod Makepath
pub mod Splitpath
pub mod RoundTrip
pub mod Itr
pub mod Search
mod Examples
