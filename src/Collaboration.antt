-- ===== src/Collaboration.antt =====
-- src/collaboration: the state machine of tasks, and the hand-over of work to people.
pub mod TaskFsm
pub mod Handoff
pub mod Workflow
pub mod Knowledge
