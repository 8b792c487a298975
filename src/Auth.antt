-- ===== src/Auth.antt =====
-- Who makes a request: app/auth/jwt.py and the authentication of app/main.py.
pub mod Jwt
pub mod Session
