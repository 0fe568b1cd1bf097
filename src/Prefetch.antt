-- ===== src/Prefetch.antt =====
-- crates/tako-providers/{bedrock,ollama}/src/url_prefetch.rs: fetching images by URL on the
-- caller's behalf, without reaching private networks. The two files differ in the vendor's name in
-- the messages, in the name of the MIME test and in the base64 encoder.
pub mod Addr
pub mod AllowList
pub mod Resolver
pub mod Fetch
pub mod Options
pub mod Ollama
pub mod Examples
