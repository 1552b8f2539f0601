-- ===== src/Types/Blocks.antt =====
-- Binding statements (compiler/type.c: ast_type_resolve, bind_stmt) in a tree of scopes.
use metagen.Base.{
  ℕ, ◌≤◌, inl, inr, refl, ◌∙◌, arith, Bool, true, String, List, [], ◌∷◌, length, Option, none, some,
  ◌==◌, ==_iff, if◌then◌else◌, if_split, Option-cases, ok, fault, assert_failed, ◌>>=◌, Ensures,
  Ensures-bind, Ensures-imp,
}
use metagen.HashMap.{StrMap}
use metagen.Diagnostics.{ErrorHandler, error_sym}
use metagen.Ast.{AstTypeInfo, TypedIdent}
use metagen.Types.{TypeInfo, symbol_local_var}
use metagen.Types.Store.{SymbolCell, Compiler, deref, symt_root}
use metagen.Types.Symt.{symt_new_sym, symt_find_sym}
use metagen.Types.Resolve.{is_symbol_type, declared_type, resolve_sym, ast_type_resolve}
use metagen.Types.Infer.{bind_decls}
use metagen.Types.Scopes.{CellOk, IsValid, Extends, Extends-refl, Extends-trans}
use metagen.Types.Grow.{Added, symt_new_sym-Added, error_sym-length}
use metagen.Types.Lookup.{Finds, Named, symt_find_sym-Finds}
use metagen.Types.Binding.{Grows, Silent, Ready, in_turn}

module _ (h : StrMap) where
  open h use {Map, get}

  -- A step from `c` to `c'`, after which `A` holds when nothing was reported.
  pub record After (c : Compiler Map) (A : Type 0) (c' : Compiler Map) : Type 0 where
    pub ready : Ready h c'
    pub more : Extends h c c'
    pub quiet : Silent c.e c'.e → A

  pub After-turn :
      (A B : Type 0) (c c₁ c₂ : Compiler Map) → After c A c₁ → After c₁ B c₂ → After c (A × B) c₂
  After-turn A B c c₁ c₂ x y = record {
    ready = y.ready;
    more = Extends-trans h c c₁ c₂ x.more y.more;
    quiet = (in_turn A B c.e c₁.e c₂.e (x.more.reports, x.quiet) (y.more.reports, y.quiet)).1;
  }

  pub After-imp : (A B : Type 0) (c c' : Compiler Map) → (A → B) → After c A c' → After c B c'
  After-imp A B c c' f x = record { ready = x.ready; more = x.more; quiet = λ q. f (x.quiet q) }

  pub Extends-Ready : (c c' : Compiler Map) → Ready h c → IsValid h c' → Extends h c c' → Ready h c'
  Extends-Ready c c' ready v x = record {
    valid = v;
    null_live = λ d.
        let (cell, live) = ready.null_live (λ z. d (x.null ∙ z)) in
        (cell, rw (x.null) (x.kept c.sym_null cell live));
  }

  -- Only the error handler is new.
  report_After :
      (c : Compiler Map) (e : ErrorHandler)
      → Ready h c
      → Grows c.e e
      → After c Unit (record c { e = e })
  report_After c e ready g = record {
    ready = record { valid = ready.valid; null_live = ready.null_live };
    more = record { kept = λ s cell q. q; tables = omega arith; null = refl; reports = g };
    quiet = λ q. tt;
  }

  pub After-refl : (c : Compiler Map) → Ready h c → After c Unit c
  After-refl c ready = record { ready = ready; more = Extends-refl h c; quiet = λ q. tt }

  resolve_sym-After :
      (c : Compiler Map) (ati : AstTypeInfo) (cell : SymbolCell)
      → Ready h c
      → CellOk (length c.tables) cell
      → Ensures (λ r. After c Unit r.1) (resolve_sym h c ati cell.sym)
  unfolding resolve_sym
  resolve_sym-After c ati cell ready fits =
      let msg : String = "Wants to be used as a type, but is in fact not :-(" in
      if_split (Ensures (λ (r : Option TypeInfo × Compiler Map). After c Unit r.1))
        (is_symbol_type cell.sym.kind)
        {x = elim (cell.sym.type_info) [
          | none ↦ fault assert_failed
          | some t ↦ ok (some (declared_type ati cell.sym.name t), c)
        ]}
        {y = ok (none, record c { e = error_sym c.e msg ati.name })}
        (λ z. elim (Option-cases cell.sym.type_info) [
          | inl n ↦ absurd (fits.typed z n)
          | inr s ↦ rw (s.1) (After-refl c ready)
        ])
        (λ z.
          report_After c (error_sym c.e msg ati.name) ready
            (let l = error_sym-length c.e msg ati.name in omega (arith, l)))

  pub ast_type_resolve-After :
      (c : Compiler Map) (ati : AstTypeInfo) (err_if_not_resolved : Bool)
      → Ready h c
      → Ensures (λ r. After c Unit r.1) (ast_type_resolve h c ati err_if_not_resolved)
  unfolding ast_type_resolve
  ast_type_resolve-After c ati err ready =
      let v = ready.valid in
      Ensures-bind (λ s. Finds h c ati.name symt_root s × Named h c ati.name s)
        (λ r. After c Unit r.1) (symt_find_sym h c symt_root ati.name) _
        (symt_find_sym-Finds h c symt_root ati.name v.rooted v)
        (λ s k.
          if_split (Ensures (λ (r : Option TypeInfo × Compiler Map). After c Unit r.1)) (s == 0)
            {x = ok
              (none, if err then record c { e = error_sym c.e "Type not found" ati.name } else c)}
            {y = deref c.cells s >>= λ cell. resolve_sym h c ati cell.sym}
            (λ z.
              if_split (After c Unit) err
                {x = record c { e = error_sym c.e "Type not found" ati.name }} {y = c}
                (λ y.
                  report_After c (error_sym c.e "Type not found" ati.name) ready
                    (let l = error_sym-length c.e "Type not found" ati.name in omega (arith, l)))
                (λ y. After-refl c ready))
            (λ z.
              let (cell, live, named) = k.1 (λ y. let r = (==_iff s 0).1 y in cc) in
              rw (live) (resolve_sym-After c ati cell ready (v.owned s cell live))))

  pub bind_decls-After :
      (c : Compiler Map) (p : ℕ) (decls : List TypedIdent)
      → 1 ≤ p
      → p ≤ length c.tables
      → Ready h c
      → Ensures (After c Unit) (bind_decls h c p decls)
  unfolding bind_decls
  bind_decls-After c p [] low high ready = After-refl c ready
  bind_decls-After c p (decl ∷ decls) low high ready =
      Ensures-bind (λ r. After c Unit r.1) (After c Unit)
        (ast_type_resolve h c decl.ast_type_info true) _
        (ast_type_resolve-After c decl.ast_type_info true ready)
        (λ r a.
          let c₁ = r.1 in
          let grown = a.more.tables in
          Ensures-bind (Added h c₁ p decl.name) (After c Unit)
            (symt_new_sym h c₁ p symbol_local_var decl.name r.0) _
            (symt_new_sym-Added h c₁ p symbol_local_var decl.name r.0 (λ z. cc) low
              (omega (arith, high, grown)) a.ready.valid)
            (λ s b.
              let bigger = b.more.tables in
              let made : After c Unit s.1 = record {
                ready = Extends-Ready c₁ s.1 a.ready b.valid b.more;
                more = Extends-trans h c c₁ s.1 a.more b.more;
                quiet = λ q. tt;
              } in
              Ensures-imp (After s.1 Unit) (After c Unit) (bind_decls h s.1 p decls)
                (λ c₂ d.
                  After-imp (Unit × Unit) Unit c c₂ (λ u. tt)
                    (After-turn Unit Unit c s.1 c₂ made d))
                (bind_decls-After s.1 p decls low (omega (arith, high, grown, bigger)) made.ready)))
