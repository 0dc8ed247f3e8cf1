-- ===== src/Web.antt =====
-- The configuration web server of src/wifi.c.
pub mod CString
pub mod Number
pub mod Url
pub mod Params
pub mod Pool
pub mod Template
pub mod Recv
pub mod AccessPoint
mod Examples
