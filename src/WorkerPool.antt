-- ===== src/WorkerPool.antt =====
-- worker_pool_asio.cpp and worker_pool_photon.cpp.
pub mod Hash
pub mod Expected
pub mod Buffer
pub mod Items
pub mod Asio
pub mod Photon
mod Agreement
