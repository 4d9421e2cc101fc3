-- ===== src/Auth.antt =====
-- services/auth_service.py with core/passwords.py and core/access_tokens.py: what they take from
-- the libraries, the settings, and the helpers. The flows are in the modules below.
pub mod Base
pub mod Tokens
pub mod SignIn
pub mod SignUp
pub mod Reset
pub mod Verify
pub mod Lockout
pub mod Rotation
pub mod Sessions
pub mod SignOut
pub mod Registered
pub mod Verified
pub mod Tests
