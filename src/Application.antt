-- ===== src/Application.antt =====
-- application: the modules of an application.
pub mod ModuleStack
