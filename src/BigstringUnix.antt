-- ===== src/BigstringUnix.antt =====
-- core/bigstring_unix/src/bigstring_unix_stubs.c: input and output of bigstrings.
pub mod Replies
pub mod Read
pub mod Channel
pub mod Input
pub mod Write
pub mod Output
pub mod Vectors
pub mod Single
pub mod Recvmmsg
mod Tests
