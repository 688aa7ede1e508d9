-- ===== src/Prompt.antt =====
-- cmd/gzb: the prompt's words and what a person means by them.
pub mod Words
pub mod Resolve
