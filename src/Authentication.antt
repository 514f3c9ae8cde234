-- ===== src/Authentication.antt =====
-- Registration, login and the test of a token: what src/application/use-cases/auth does when it returns.
pub mod Login
pub mod Register
