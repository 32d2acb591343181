-- ===== src/Email.antt =====
-- The attachment decoders of Snort-POCAD/build/src/snort_dynamicsrc/sf_email_attach_decode.c and
-- the state of sf_email_attach_decode.h.
pub mod State
pub mod Detection
pub mod Admit
pub mod Decoders
pub mod Dispatch
pub mod Buffers
pub mod Invariant
pub mod Updates
pub mod KeepsBase64
pub mod KeepsQuoted
pub mod KeepsUu
pub mod Total
