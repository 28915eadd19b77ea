-- ===== src/Assurance/Simulation/Verdicts.antt =====
-- What `simulateOperation` of apps/server/src/assurance.ts answers, told by what the history of the
-- Run shows of the operation.
