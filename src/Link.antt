-- ===== src/Link.antt =====
-- `class TrackingRosLink` of car2/src/thirdparty/vision/arm_tracking_ros.py: the joystick's request,
-- the pose feedback and the control of the arm.
pub mod Joystick
pub mod Pose
pub mod Control
