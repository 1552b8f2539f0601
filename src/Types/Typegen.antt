-- ===== src/Types/Typegen.antt =====
-- The first pass over the tree (compiler/type.c: typegen): symbols and types for the global
-- declarations, then the order and the sizes of the structs.
use metagen.Base.{[], ◌∷◌, ◌==◌, if◌then◌else◌, Outcome, ok, ◌>>=◌}
use metagen.HashMap.{StrMap}
use metagen.Ast.{AstRoot}
use metagen.Types.Store.{Compiler}
use metagen.Types.Symt.{symt_init}
use metagen.Types.Global.{
  fill_builtin_types, resolve_global_types, enum_decls, struct_decls, func_decls, global_var_lists,
}
use metagen.Types.Layout.{Nag, report_sccs, sorted_structs, struct_graph, size_structs}

module _ (h : StrMap) (nag : Nag) where
  open h use {Map}
  open nag use {scc, rev_toposort}

  unfoldable pub declare_all : Compiler Map → AstRoot → Outcome (Compiler Map)
  declare_all c root = do
    c₁ ← fill_builtin_types h c
    c₂ ← enum_decls h c₁ root.enums
    c₃ ← struct_decls h c₂ root.structs
    c₄ ← func_decls h c₃ root.funcs
    c₅ ← global_var_lists h c₄ root.vars
    resolve_global_types h c₅ c₅.all_types

  -- The structs in the order in which they can be laid out, with their sizes.
  unfoldable pub lay_out : Compiler Map → Outcome (Compiler Map)
  lay_out c = do
    graph ← struct_graph nag c.structs c.struct_types
    e ← report_sccs c.e (scc graph)
    names ← sorted_structs c.struct_types (rev_toposort graph)
    size_structs Map (record c { e = e; struct_types = names }) names

  unfoldable pub typegen : Compiler Map → AstRoot → Outcome (Compiler Map)
  typegen c root = do
    c₁ ← declare_all (record c { tables = symt_init h 0 ∷ [] }) root
    if c₁.e.n_errors == 0 then lay_out c₁ else ok c₁
