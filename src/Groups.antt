-- ===== src/Groups.antt =====
-- The rule language of dynamic groups: internal/server/groups. A rule is lexed, parsed to a tree and
-- compiled to a query whose literals are bound.
pub mod Ast
pub mod Lex
pub mod Parse
pub mod Compile
mod Examples
