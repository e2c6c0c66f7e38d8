-- ===== src/Trust.antt =====
-- The trust model of the security extension: the state of one signature, the integrity of the set
-- of signatures, and the binding of a signature timestamp.
pub mod SignatureState
pub mod SignatureSet
pub mod Imprint
