-- ===== src/Ota.antt =====
-- publish_ota.py, which publishes a release: the reading back of a published file, and the waiting for
-- a task of the server.
pub mod Readback
pub mod Task
pub mod Api
pub mod Paths
pub mod Publish
