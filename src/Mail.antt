-- ===== src/Mail.antt =====
-- src/mail: what is sent to the mail server.
pub mod Errors
pub mod Message
pub mod Stuffing
pub mod Smtp
pub mod Send
pub mod Oauth
mod Tests
mod SessionTests
mod OauthTests
