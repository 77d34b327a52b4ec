-- ===== src/Channel.antt =====
-- libdaylite/src/tcp_input_channel.cpp and tcp_output_channel.cpp: packets over a byte stream. A
-- socket is the list of what its calls return, in order.
pub mod Output
pub mod Input
pub mod Stream
pub mod Drain
mod Tests
