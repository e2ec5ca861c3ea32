-- ===== src/Safety/BlackChannel.antt =====
-- The black channel (include/safeedge/safety/black_channel.hpp, src/safety/black_channel.cpp).
pub mod Telegram
pub mod Sender
pub mod Receiver
pub mod Delivery
pub mod Sequence
pub mod Frame
pub mod RoundTrip
pub mod Stream
pub mod Corruption
mod Tests
