-- ===== src/Tests.antt =====
-- Runs of the model on concrete inputs, and the theorems at inputs that meet their hypotheses.
pub mod Chat
pub mod Loops
pub mod Texts
pub mod Ws
pub mod Store
pub mod Packages
pub mod Http
pub mod Origins
pub mod Sockets
pub mod System
