-- ===== src/Rest.antt =====
-- components/rest_controller: the decoding of the parameters in a request's address. A C string is the list of its
-- bytes before the terminator.
pub mod Url
mod Tests
pub mod Request
pub mod Words
pub mod System
pub mod Variables
pub mod Imu
pub mod Led
pub mod Routes
pub mod Refusal
pub mod Configure
pub mod Effects
pub mod Assign
