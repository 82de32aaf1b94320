-- ===== src/Auth.antt =====
-- Sign-up and sign-in: AuthService (backend/app/modules/auth/service.py) with its repositories, the
-- dependencies of backend/app/modules/auth/dependencies.py, and UserRepository
-- (backend/app/modules/users/repository.py).
pub mod Crypto
pub mod Accepted
pub mod Admission
pub mod Rotation
pub mod Reuse
pub mod SignedOut
pub mod SingleUse
pub mod Onboarding
pub mod Revoked
mod Users
mod Tokens
mod Login
mod TwoFactor
mod RegistrationChecks
mod Registration
mod Refresh
mod ResetTokens
mod Passwords
mod Access
mod Cookies
mod Router
pub mod Browser
pub mod LoggedOut
unfoldable pub use Users.*
unfoldable pub use Tokens.*
unfoldable pub use Login.*
unfoldable pub use TwoFactor.*
unfoldable pub use RegistrationChecks.*
unfoldable pub use Registration.*
unfoldable pub use Refresh.*
unfoldable pub use ResetTokens.*
unfoldable pub use Passwords.*
unfoldable pub use Access.*
unfoldable pub use Cookies.*
unfoldable pub use Router.*
