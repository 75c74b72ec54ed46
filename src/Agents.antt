-- ===== src/Agents.antt =====
-- What an agent sends besides its jobs: enrollment, pulse and heartbeat of
-- hub/agent_control_router.py.
pub mod Peers
pub mod Report
pub mod Heartbeat
pub mod Tunnels
pub mod Beat
pub mod Enrollment
pub mod Steady
pub mod Inventory
pub mod Alarm
pub mod Keeps
