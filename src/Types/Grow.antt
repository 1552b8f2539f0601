-- ===== src/Types/Grow.antt =====
-- A new symbol (compiler/type.c: symt_new_sym) keeps the tree of scopes.
use metagen.Base.{
  ℕ, suc, ◌≤◌, ◌≡◌, ◌≢◌, inl, inr, refl, sym, ap, ◌∙◌, arith, Bool, true, false, String, ◌&&◌, List,
  [], ◌∷◌, ◌++◌, length, Option, none, some, ◌==◌, ==_iff, if◌then◌else◌, if_split, ok, ◌>>=◌,
  length-append, Ensures, Ensures-bind,
}
use metagen.HashMap.{StrMap}
use metagen.Diagnostics.{ErrorHandler, append_err, error_sym}
use metagen.Types.{TypeInfo, kind, SymbolKind}
use metagen.Types.Resolve.{is_symbol_type}
use metagen.Types.Store.{SymbolCell, SymbolTable, Compiler, deref, assign, symt_root}
use metagen.Types.Symt.{
  sym_generates_type, is_local, local_parent, is_scoped_kind, symt_init, with_symbol, add_symbol,
  existing_sym, symt_new_sym,
}
use metagen.Types.Pointers.{
  deref-append, deref-within, deref-last, deref-assign, deref-assign-other, deref-bound,
  length-assign,
}
use metagen.Types.Scopes.{IsValid, Extends, Scoped, Nat-cases, ok-inj}
use metagen.Types.Insert.{
  Scoped-mono, Scoped-table, Scoped-symbol, with_symbol-same, with_symbol-other,
}

local_parent-le : (t : Option TypeInfo) (p : ℕ) → local_parent t p ≤ p
local_parent-le none p = omega arith
local_parent-le (some t) p =
    if_split (λ q. q ≤ p) (is_scoped_kind (kind t)) {x = 0} {y = p} (λ e. omega arith)
      (λ e. omega arith)

-- A report makes the list longer.
pub error_sym-length :
    (e : ErrorHandler) (msg : String) (name : List ℕ)
    → length ((error_sym e msg name).errors) ≡ suc (length e.errors)
unfolding error_sym append_err
error_sym-length e msg name =
    let l = length-append e.errors (record { line = none; name = name; msg = msg } ∷ []) in
    omega (arith, l)

module _ (h : StrMap) where
  open h use {Map}

  pub error_sym-Extends :
      (c : Compiler Map) (msg : String) (name : List ℕ)
      → Extends h c (record c { e = error_sym c.e msg name })
  error_sym-Extends c msg name = record {
    kept = λ s cell e. e;
    tables = omega arith;
    null = refl;
    reports = (let l = error_sym-length c.e msg name in omega (arith, l));
  }

module _ (h : StrMap) where
  open h use {Map, get}

  -- A table after a symbol of the name `name` was made: all other names stand for what they did.
  pub record Keeps (name : List ℕ) (t t' : SymbolTable Map) : Type 0 where
    pub parent : t'.parent ≡ t.parent
    pub rest : (key : List ℕ) → name ≢ key → get t'.map key ≡ get t.map key

  -- What a call of symt_new_sym in the table at `p` leaves behind: its symbol, of that name, which
  -- without a report is in the table; and the other symbols.
  pub record Added (c : Compiler Map) (p : ℕ) (name : List ℕ) (r : ℕ × Compiler Map) : Type 0 where
    pub made :
        r.1.e.errors ≡ c.e.errors
        → (t : SymbolTable Map) × (deref r.1.tables p ≡ ok t) × (get t.map name ≡ r.0)
    pub others :
        (q : ℕ) (t : SymbolTable Map)
        → deref c.tables q ≡ ok t
        → (t' : SymbolTable Map) × (deref r.1.tables q ≡ ok t') × Keeps name t t'
    pub valid : IsValid h r.1
    pub more : Extends h c r.1
    pub named : (cell : SymbolCell) × (deref r.1.cells r.0 ≡ ok cell) × (cell.sym.name ≡ name)

  -- The tables and the cell of a new symbol, which has a table of its own or not.
  module _ (c : Compiler Map) (p : ℕ) (symt : SymbolTable Map) (kind : SymbolKind)
      (t : Option TypeInfo) where
    abbrev new_tables : List ℕ → Bool → List (SymbolTable Map)
    new_tables name g =
        let tables = assign c.tables p (with_symbol h symt name (suc (length c.cells))) in
        if g then tables ++ record (symt_init h p) { parent = local_parent t p } ∷ [] else tables

    abbrev new_cell : List ℕ → Bool → SymbolCell
    new_cell name g = record {
      sym = record { kind = kind; seq_no = length symt.symbols; name = name; type_info = t };
      symt_local = if g then suc (length c.tables) else 0;
    }

    new_tables-length : (name : List ℕ) (g : Bool) → length c.tables ≤ length (new_tables name g)
    new_tables-length name true =
        let t' = with_symbol h symt name (suc (length c.cells)) in
        let l = length-assign c.tables p t' in
        let m =
          length-append (assign c.tables p t')
            (record (symt_init h p) { parent = local_parent t p } ∷ []) in
        omega (arith, l, m)
    new_tables-length name false =
        let l = length-assign c.tables p (with_symbol h symt name (suc (length c.cells))) in
        omega (arith, l)

    new_symbol-Scoped :
        (name : List ℕ) (g : Bool)
        → (is_symbol_type kind ≡ true → t ≢ none)
        → IsValid h c
        → deref c.tables p ≡ ok symt
        → get symt.map name ≡ 0
        → Scoped h
            (new_tables name g)
            (c.cells ++ new_cell name g ∷ [])
            (length (new_tables name g))
    new_symbol-Scoped name true typed v at free =
        let t' = with_symbol h symt name (suc (length c.cells)) in
        let inner : SymbolTable Map = record (symt_init h p) { parent = local_parent t p } in
        let l = length-assign c.tables p t' in
        let m = length-append (assign c.tables p t') (inner ∷ []) in
        let b = deref-bound c.tables p symt at in
        let q = local_parent-le t p in
        Scoped-table h (assign c.tables p t') (c.cells ++ new_cell name true ∷ [])
          (length (new_tables name true)) p (local_parent t p)
          (let b1 = b.1 in omega (arith, l, b1, q))
          (Scoped-symbol h c.tables c.cells (length (new_tables name true)) p symt
            (new_cell name true) at free refl (record { own = omega (arith, l, m); typed = typed })
            (Scoped-mono h c.tables c.cells (length c.tables) (length (new_tables name true))
              (omega (arith, l, m)) v))
    new_symbol-Scoped name false typed v at free =
        let l = length-assign c.tables p (with_symbol h symt name (suc (length c.cells))) in
        Scoped-symbol h c.tables c.cells (length (new_tables name false)) p symt
          (new_cell name false) at free refl (record { own = omega arith; typed = typed })
          (Scoped-mono h c.tables c.cells (length c.tables) (length (new_tables name false))
            (omega (arith, l)) v)

    deref-new_tables :
        (name : List ℕ) (g : Bool) (q : ℕ) (u : SymbolTable Map)
        → deref (assign c.tables p (with_symbol h symt name (suc (length c.cells)))) q ≡ ok u
        → deref (new_tables name g) q ≡ ok u
    deref-new_tables name true q u e =
        deref-append (assign c.tables p (with_symbol h symt name (suc (length c.cells))))
          (record (symt_init h p) { parent = local_parent t p } ∷ []) q u e
    deref-new_tables name false q u e = e

    new_tables-Keeps :
        (name : List ℕ) (g : Bool)
        → deref c.tables p ≡ ok symt
        → (q : ℕ) (u : SymbolTable Map) → deref c.tables q ≡ ok u
        → (u' : SymbolTable Map) × (deref (new_tables name g) q ≡ ok u') × Keeps name u u'
    unfolding with_symbol
    new_tables-Keeps name g at q u e =
        let t' = with_symbol h symt name (suc (length c.cells)) in
        elim (Nat-cases q p) [
          | inl same ↦
              let u_is : u ≡ symt =
                ok-inj u symt (deref c.tables p) (sym (ap (deref c.tables) same) ∙ e) at in
              (
                t',
                deref-new_tables name g q t'
                    (ap (deref (assign c.tables p t')) same ∙ deref-assign c.tables p symt t' at),
                record {
                  parent = ap (λ (x : SymbolTable Map). x.parent) (sym u_is);
                  rest = λ key d.
                      with_symbol-other h symt name key (suc (length c.cells)) d
                      ∙ ap (λ (x : SymbolTable Map). get x.map key) (sym u_is);
                },
              )
          | inr d ↦ (
            u,
            deref-new_tables name g q u (deref-assign-other c.tables p q t' d ∙ e),
            record { parent = refl; rest = λ key d. refl },
          )
        ]

  add_symbol-Added :
      (c : Compiler Map) (p : ℕ) (symt : SymbolTable Map) (kind : SymbolKind) (name : List ℕ)
      (t : Option TypeInfo)
      → (is_symbol_type kind ≡ true → t ≢ none)
      → IsValid h c
      → deref c.tables p ≡ ok symt
      → get symt.map name ≡ 0
      → Added c p name (add_symbol h c p symt kind name t)
  unfolding add_symbol
  add_symbol-Added c p symt kind name t typed v at free =
      let g = sym_generates_type kind t in
      record {
        made = λ e. (
          with_symbol h symt name (suc (length c.cells)),
          deref-new_tables c p symt kind t name g p (with_symbol h symt name (suc (length c.cells)))
              (deref-assign c.tables p symt (with_symbol h symt name (suc (length c.cells))) at),
          with_symbol-same h symt name (suc (length c.cells)),
        );
        others = new_tables-Keeps c p symt kind t name g at;
        valid = new_symbol-Scoped c p symt kind t name g typed v at free;
        more = record {
          kept = λ s cell e. deref-append c.cells (new_cell c p symt kind t name g ∷ []) s cell e;
          tables = new_tables-length c p symt kind t name g;
          null = refl;
          reports = omega arith;
        };
        named = (
          new_cell c p symt kind t name g,
          deref-last c.cells (new_cell c p symt kind t name g),
          refl,
        );
      }

  -- A symbol that stands in the way is in the table itself or, for a local one, in the root, under the
  -- same name.
  existing_sym-Named :
      (c : Compiler Map) (p : ℕ) (symt : SymbolTable Map) (kind : SymbolKind) (name : List ℕ)
      → IsValid h c
      → deref c.tables p ≡ ok symt
      → Ensures
          (λ s.
            ((s ≡ 0) → get symt.map name ≡ 0)
            × ((s ≢ 0)
                → (cell : SymbolCell) × (deref c.cells s ≡ ok cell) × (cell.sym.name ≡ name)))
          (existing_sym h c symt kind name)
  unfolding existing_sym
  existing_sym-Named c p symt kind name v at =
      let (root, root_at) = deref-within c.tables symt_root (omega arith) v.rooted in
      if_split
        (Ensures (λ s.
          ((s ≡ 0) → get symt.map name ≡ 0)
          × ((s ≢ 0) → (cell : SymbolCell) × (deref c.cells s ≡ ok cell) × (cell.sym.name ≡ name))))
        ((get symt.map name == 0) && is_local kind)
        {x = deref c.tables symt_root >>= λ root. ok (get root.map name)}
        {y = ok (get symt.map name)}
        (λ e. rw (root_at) (
          λ z.
              (let f : (get symt.map name == 0) ≡ true = ground (arith, e) in
                (==_iff (get symt.map name) 0).0 f),
          λ d.
              (let m = (v.scopes symt_root root root_at).mapped name d in
                (m.cell, m.live, m.named)),
        ))
        (λ e.
          (λ z. z, λ d. (let m = (v.scopes p symt at).mapped name d in (m.cell, m.live, m.named))))

  -- Making a symbol, with a type if it is a type's, in a table of a tree of scopes never stops. It leaves a
  -- tree of scopes, in which all symbols and tables keep their addresses, other names stand for what they did,
  -- no report is lost, and the symbol that is given back has the name; when nothing was reported, it
  -- stands under that name in the table.
  pub symt_new_sym-Added :
      (c : Compiler Map) (p : ℕ) (kind : SymbolKind) (name : List ℕ) (t : Option TypeInfo)
      → (is_symbol_type kind ≡ true → t ≢ none)
      → 1 ≤ p
      → p ≤ length c.tables
      → IsValid h c
      → Ensures (Added c p name) (symt_new_sym h c p kind name t)
  unfolding symt_new_sym
  symt_new_sym-Added c p kind name t typed low high v =
      let (symt, at) = deref-within c.tables p low high in
      rw (at) (
        Ensures-bind
          (λ s.
            ((s ≡ 0) → get symt.map name ≡ 0)
            × ((s ≢ 0)
                → (cell : SymbolCell) × (deref c.cells s ≡ ok cell) × (cell.sym.name ≡ name)))
          (Added c p name) (existing_sym h c symt kind name)
          (λ s.
            if s == 0
            then ok (add_symbol h c p symt kind name t)
            else ok (s, record c { e = error_sym c.e "Symbol already exists" name }))
          (existing_sym-Named c p symt kind name v at)
          (λ s k.
            if_split (Ensures (Added c p name)) (s == 0)
              {x = ok (add_symbol h c p symt kind name t)}
              {y = ok (s, record c { e = error_sym c.e "Symbol already exists" name })}
              (λ e. add_symbol-Added c p symt kind name t typed v at (k.0 ((==_iff s 0).0 e)))
              (λ e. record {
                made = λ q.
                    let l = error_sym-length c.e "Symbol already exists" name in
                    let k = ap length q in absurd (omega (arith, l, k));
                others = λ q u at. (u, at, record { parent = refl; rest = λ key d. refl });
                valid = v;
                more = error_sym-Extends h c "Symbol already exists" name;
                named = k.1 (λ z. let r = (==_iff s 0).1 z in cc);
              })))
