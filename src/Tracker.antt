-- ===== src/Tracker.antt =====
-- src/core/dst.py: the dialogue-state tracker, which folds one utterance into a new belief.
pub mod Cues
pub mod Intent
pub mod Slots
pub mod Update
pub mod Extract
