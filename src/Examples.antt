-- ===== src/Examples.antt =====
-- Runs of the model on concrete inputs, with numbers of six decimals in place of floats.
mod Micro
mod Tracking
mod Approach
mod Link
mod Yiyou
mod Ota
mod Torque
mod Session
mod Package
