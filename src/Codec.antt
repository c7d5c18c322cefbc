-- ===== src/Codec.antt =====
-- The two base64 codecs: server/src/persist/base64url.rs and server/src/json_view/base64.rs.
mod Groups
pub mod Base64Url
pub mod Base64
