-- ===== src/GroupCall.antt =====
-- A group call: `GroupCallFacade` of frontend-app/src/app/home/group-call-facade.service.ts. Of it, the
-- ICE candidates of one peer are modelled.
pub mod Peer
