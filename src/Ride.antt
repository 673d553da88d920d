-- ===== src/Ride.antt =====
-- src/subdomains/ride: the sign-in of the participants of the exchange.
pub mod Types
pub mod Tokens
pub mod Sessions
pub mod Accounts
mod Tests
