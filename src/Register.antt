-- ===== src/Register.antt =====
-- The registrations of NGSI9: processRegisterContext of src/lib/mongoBackend/MongoCommonRegister.cpp and
-- mongoRegisterContext of src/lib/mongoBackend/mongoRegisterContext.cpp. The database and the notifier are a
-- parameter (Register.Store).
pub mod Store
pub mod Operations
pub mod Contract
pub mod Kept
pub mod Laws
pub mod Samples
