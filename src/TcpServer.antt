-- ===== src/TcpServer.antt =====
-- The TCP servers, tcp_server_asio.cpp and tcp_server_photon.cpp.
pub mod Connections
pub mod Asio
pub mod Photon
mod Options
mod Tests
