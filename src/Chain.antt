-- ===== src/Chain.antt =====
-- internal/chain: the chains, their addresses, and amounts of a token.
pub mod Hex
pub mod Profiles
pub mod Units
pub mod Digits
pub mod RoundTrip
pub mod Numbers
pub mod Transfer
