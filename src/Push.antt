-- ===== src/Push.antt =====
-- internal/push: VAPID keys, the encryption of a push message, and the sender.
pub mod Crypto
pub mod Hkdf
pub mod Encrypt
pub mod RoundTrip
pub mod Vapid
pub mod Flexible
pub mod Keys
mod Tests
pub mod Sender
pub mod Jwt
pub mod Send
pub mod Guard
pub mod Token
mod SendTests
