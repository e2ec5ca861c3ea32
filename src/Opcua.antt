-- ===== src/Opcua.antt =====
-- src/opcua and include/safeedge/opcua: the OPC UA server's own code. The open62541 library is a
-- parameter.
pub mod Security
pub mod AddressSpace
pub mod Events
