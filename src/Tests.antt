-- ===== src/Tests.antt =====
-- Concrete kernels, a concrete box, frames and nodes, and the theorems at them.
mod Platform
mod Frames
mod SeenCases
mod PacketCases
mod CryptoCases
mod TransportCases
mod MeshCases
mod AcrossCases
mod MessageCases
mod ProgramCases
mod KeyCases
