-- ===== src/Sema/Scopes.antt =====
-- lib/Sema/SymbolTable.cpp: scopes with their symbols, and the table as a stack of scopes.
mod Defs
pub mod Laws
unfoldable pub use Defs.*
