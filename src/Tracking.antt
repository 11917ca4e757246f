-- ===== src/Tracking.antt =====
-- The hardware-free tracking gate: car2/src/thirdparty/vision/arm_tracking.py.
pub mod Config
pub mod Geometry
pub mod Tracker
pub mod Evaluate
pub mod Keeps
pub mod Session
pub mod Fresh
pub mod Replay
