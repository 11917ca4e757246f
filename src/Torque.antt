-- ===== src/Torque.antt =====
-- arm_torque_report.py, which summarizes and plots the recordings of the arm's torques.
pub mod Rows
pub mod Summary
pub mod Plot
pub mod Files
pub mod Reports
