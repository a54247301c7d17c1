-- ===== src/Image.antt =====
-- internal/image: Docker references, and what they are resolved to.
pub mod Table
pub mod Registry
pub mod Distro
pub mod Resolver
