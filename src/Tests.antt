-- ===== src/Tests.antt =====
-- Concrete runs of the models: the inputs that the tests share, and the tests by part.
pub mod World
pub mod Encoding
pub mod Attributes
pub mod Tables
pub mod Thread
pub mod Lifecycle
pub mod Arguments
pub mod Session
pub mod Usb
pub mod Peripheral
pub mod Android
pub mod History
pub mod Units
