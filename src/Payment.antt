-- ===== src/Payment.antt =====
-- internal/payment: the verification of a payment.
pub mod Evidence
pub mod Verify
mod Examples
pub mod RoundTrip
