-- ===== src/Cors.antt =====
-- internal/cors/cors.go: which origins a browser lets read the responses. A text is its list of
-- bytes; letters are folded as ASCII, which is what browsers send as an origin.
pub mod Bytes
pub mod Policy
