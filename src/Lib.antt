-- ===== src/Lib.antt =====
-- The Python part of the car: the control of its arm by camera, the tool for its motors, the report
-- on their torque, the installation of the settings and the publication of a release.
--
-- A camera program finds two markers and hands each detection to a tracker or to an approach
-- session, which decides whether there is a target for the arm. A link to ROS carries the arm's
-- measured pose, an operator's button and the requests and targets to the controller. A terminal
-- tool moves single motors, writes their zeros and homes them through a backend process. The torque
-- tool turns recordings of the arm into reports and plots and removes old ones. The scripts seed
-- missing settings at installation and publish a built package to the file server.
--
-- - Base: lists, integers, JSON values, floats (Base/Numeric) and code that may stop early
--   (Base/Gate, Base/Maybe). Base/Numeric has `_number` of
--   car2/src/thirdparty/vision/arm_tracking.py.
-- - Tracking: car2/src/thirdparty/vision/arm_tracking.py. Config is `validate_config`, Geometry is
--   `_transform`, `_pixel_target` and `_depth_correction`, Tracker is the state with `invalidate`,
--   and Evaluate is `evaluate`, by stages in the order of the source. Keeps, Session, Fresh and
--   Replay prove.
-- - Approach: car2/src/thirdparty/vision/arm_approach.py, `ArmApproach`. `evaluate_approach` is its
--   `evaluate`; the four goal attributes are one record. Approach/Calls is a session of calls, and
--   Approach/Terminal and Approach/Capture prove.
-- - Link: car2/src/thirdparty/vision/arm_tracking_ros.py. Joystick is the button, Pose is
--   `_observe_pose` and `fresh_pose`, Control is `enable`, `publish`, `publish_goal`, `stop`,
--   `disable` and `close`. Link/Control/Safety and Link/Control/Ways prove.
-- - Yiyou: car2/tools/yiyou_control.py. Keys is `KeyReader`, Slaves is `parse_slaves` and
--   `parse_bus`, Lines is `poll_events`, Calibration is the file of zero records with
--   `verify_home_records`, Ready is `axis_from_json`, `wait_ready`, `parse_speed` and
--   `parse_timeout`, Terminal is the state with `apply_done_event`, `handle_backend_events`,
--   `run_jog` and `run_home`. The modules below them prove; Yiyou/Slaves/RoundTrip shows what the
--   parser reads back.
-- - Session: car2/src/example/arm_tracking.py. Session is the variables of `run` with
--   `disable_control` and `refresh_request`, Session/Turns its loop, from a frame to its record, and
--   Session/Follower the two trackers as what the loop calls. Session/Requests and the modules below
--   Session/Turns prove. The sessions modelled are those with a calibration and a ROS link.
-- - Ota: scripts/publish_ota.py. Task is `wait_for_upload`. Readback is `verify_public_file` with its
--   retries, the digest being a parameter. Api is `api`, `login` and the listings, Paths the checks of
--   names, directories and URLs, and Publish `upload`, `pull` and `publish`.
-- - Torque: car2/tools/arm_torque_report.py. Rows reads a recording and chooses the units, Summary is
--   `summarize`, Plot is `collect_plot_series`, Files is `cleanup_old_reports`,
--   Reports is `generate_report` with its checks of the files it replaces.
-- - Package: car2/scripts/postinstall.py. Seeding is `copy_missing`, Install `main` with its checks.
-- - Examples: runs at concrete inputs.
--
-- State is passed on explicitly. An exception that ends a call is a rejection, which carries the
-- state that the call leaves. Where the source loops until something happens (`run_jog`,
-- `run_home`), the model takes the rounds as a list, so what holds for all lists holds however long
-- the loop goes on. Recursion is on the structure of the input; the printing of a number has its
-- successor as fuel, which is more than its digits.
--
-- Floats, `math` and NumPy are the parameter `Numeric`, with the comparisons as tests that may all
-- be false; a theorem that needs their order takes `OrderLaws`, one that needs their equality
-- `EqLaws`. The clocks, the services of ROS, the backend's events and the operating system's answers
-- are arguments.
--
-- Not modelled: texts that are only shown, the reading of command lines, the processes and
-- terminals themselves, the camera driver, the detection of markers, the making of
-- the package's archive, and the C and C++ code of the controller.
pub mod Base
pub mod Tracking
pub mod Approach
pub mod Link
pub mod Session
pub mod Yiyou
pub mod Ota
pub mod Torque
pub mod Package
pub mod Examples
