-- ===== src/Tests.antt =====
-- Concrete runs: the theorems at inputs where their hypotheses hold.
mod Samples
mod OfGates
mod OfTracker
mod OfCalls
mod OfLoop
mod OfReplies
mod OfSim
mod OfMemory
mod OfExtract
mod OfGrading
mod OfWorker
mod OfDemo
