-- ===== src/Yiyou.antt =====
-- The terminal frontend of the Yiyou EtherCAT motors: car2/tools/yiyou_control.py.
pub mod Keys
pub mod Lines
pub mod Slaves
pub mod Calibration
pub mod Ready
pub mod Terminal
