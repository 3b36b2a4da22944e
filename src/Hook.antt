-- ===== src/Hook.antt =====
-- armin-core/hook/src: the processes that run beside the coding agent.
pub mod Transcript
pub mod Util
