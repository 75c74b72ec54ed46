-- ===== src/Guards.antt =====
-- What stands before the Hub's routes: the limit on failed logins and the sessions.
pub mod Attempts
pub mod Limit
pub mod Sessions
pub mod Login
pub mod Entry
pub mod Lasting
pub mod Limited
pub mod Keeps
