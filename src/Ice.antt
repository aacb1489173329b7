-- ===== src/Ice.antt =====
-- ICE candidates and SDP generations: frontend-app/src/app/home/group-ice-generation.ts.
pub mod Lines
pub mod Candidate
pub mod Generations
pub mod Outgoing
mod Examples
