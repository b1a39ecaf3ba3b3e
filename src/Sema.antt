-- ===== src/Sema.antt =====
-- lib/Sema: the stack of scopes of the symbol table.
pub mod Scopes
mod Tests
