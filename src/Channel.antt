-- ===== src/Channel.antt =====
-- The socket protocol of src/util/ClientServerChannel.h and .cc, over the messages of
-- ClientServerChannelMessages.proto.
pub mod Types
pub mod Convert
pub mod System
pub mod Varint
pub mod Read
pub mod Write
pub mod Interface
pub mod Connect
pub mod Print
pub mod Tests
