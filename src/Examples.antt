-- ===== src/Examples.antt =====
-- Concrete containers and a concrete platform, at which the theorems are tried.
pub mod Keyed
pub mod Containers
pub mod Concrete
mod MessageTests
mod FileTests
mod ModeTests
mod HeadTests
mod CfgTests
mod DesireTests
mod ActTests
mod ArgsTests
mod ServerTests
mod YamlTests
mod Typing
mod InfoTests
mod LogTests
