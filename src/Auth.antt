-- ===== src/Auth.antt =====
-- gateways/access_gateway/auth: the Base64url codec, and the check of tokens.
pub mod Base64
pub mod Token
