-- ===== src/Spec.antt =====
-- internal/spec: the job document. Duration is how it writes a length of time.
pub mod Duration
mod Examples
