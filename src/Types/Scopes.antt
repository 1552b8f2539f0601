-- ===== src/Types/Scopes.antt =====
-- The symbol tables of a Compiler (compiler/type.c) as a tree of scopes: what holds of every table
-- and symbol that symt_init and symt_new_sym make.
use metagen.Base.{
  ℕ, suc, ◌≤◌, ◌<◌, ◌≡◌, ◌≢◌, ◌⊎◌, inl, inr, refl, ◌∙◌, arith, true, List, length, none, Bool-cases,
  ◌==◌, ==_iff, Outcome, ok,
}
use metagen.HashMap.{StrMap}
use metagen.Types.Resolve.{is_symbol_type}
use metagen.Types.Store.{SymbolCell, SymbolTable, Compiler, deref, symt_root}

-- A symbol that is a type has one, and its own table, if any, has been made.
pub record CellOk (n_tables : ℕ) (cell : SymbolCell) : Type 0 where
  pub own : cell.symt_local ≤ n_tables
  pub typed : is_symbol_type cell.sym.kind ≡ true → cell.sym.type_info ≢ none

pub Nat-cases : (a b : ℕ) → (a ≡ b) ⊎ (a ≢ b)
Nat-cases a b = elim (Bool-cases (a == b)) [
  | inl e ↦ inl ((==_iff a b).0 e)
  | inr e ↦ inr (λ z. let r = (==_iff a b).1 z in cc)
]

pub ok-inj : {A : Type 0} (a b : A) (m : Outcome A) → m ≡ ok a → m ≡ ok b → a ≡ b
ok-inj a b m e k = cc

module _ (h : StrMap) where
  open h use {Map, init, get, put, get-init, get-put}

  -- `s` is the symbol of the name `key` in a table, and stands at its place in the list.
  pub record Holds (cells : List SymbolCell) (t : SymbolTable Map) (key : List ℕ) (s : ℕ)
      : Type 0 where
    pub cell : SymbolCell
    pub live : deref cells s ≡ ok cell
    pub named : cell.sym.name ≡ key
    pub placed : deref t.symbols (suc cell.sym.seq_no) ≡ ok s
    pub found : get t.map key ≡ s

  -- The table at address `p`: its parent is older, the map knows exactly the symbols of the list, and
  -- each of these under its name and at its number.
  pub record TableOk (cells : List SymbolCell) (p : ℕ) (t : SymbolTable Map) : Type 0 where
    pub outer : t.parent < p
    pub mapped : (key : List ℕ) → get t.map key ≢ 0 → Holds cells t key (get t.map key)
    pub listed :
        (i s : ℕ)
        → deref t.symbols (suc i) ≡ ok s
        → (cell : SymbolCell) × (deref cells s ≡ ok cell)
          × (cell.sym.seq_no ≡ i)
          × (get t.map cell.sym.name ≡ s)

  -- `n_tables` bounds the addresses of the tables that symbols have.
  pub record Scoped (tables : List (SymbolTable Map)) (cells : List SymbolCell) (n_tables : ℕ)
      : Type 0 where
    pub rooted : symt_root ≤ length tables
    pub scopes : (p : ℕ) (t : SymbolTable Map) → deref tables p ≡ ok t → TableOk cells p t
    pub owned : (s : ℕ) (cell : SymbolCell) → deref cells s ≡ ok cell → CellOk n_tables cell

  abbrev pub IsValid : Compiler Map → Type 0
  IsValid c = Scoped c.tables c.cells (length c.tables)

  -- Nothing goes away: symbols and tables keep their addresses, and no report is lost.
  pub record Extends (c c' : Compiler Map) : Type 0 where
    pub kept : (s : ℕ) (cell : SymbolCell) → deref c.cells s ≡ ok cell → deref c'.cells s ≡ ok cell
    pub tables : length c.tables ≤ length c'.tables
    pub null : c'.sym_null ≡ c.sym_null
    pub reports : length c.e.errors ≤ length c'.e.errors

  pub Extends-refl : (c : Compiler Map) → Extends c c
  Extends-refl c = record {
    kept = λ s cell e. e;
    tables = omega arith;
    null = refl;
    reports = omega arith;
  }

  pub Extends-trans : (c d e : Compiler Map) → Extends c d → Extends d e → Extends c e
  Extends-trans c d e x y = record {
    kept = λ s cell q. y.kept s cell (x.kept s cell q);
    tables = (let a = x.tables in let b = y.tables in omega (arith, a, b));
    null = y.null ∙ x.null;
    reports = (let a = x.reports in let b = y.reports in omega (arith, a, b));
  }
