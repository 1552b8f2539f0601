-- ===== src/Types/Lookup.antt =====
-- Finding a symbol (compiler/type.c: symt_find_sym) against a description of scopes: the innermost
-- table that has the name.
use metagen.Base.{
  ℕ, zero, suc, ◌≤◌, ◌<◌, ◌≡◌, ◌≢◌, refl, sym, ap, ◌∙◌, arith, true, List, length, Option, none,
  ◌==◌, ==_iff, if_split, ok, Ensures, Ensures-value, Ensures-imp, Ensures-Runs, Runs-ok,
}
use metagen.HashMap.{StrMap}
use metagen.Types.{TypeInfo, SymbolKind}
use metagen.Types.Resolve.{is_symbol_type}
use metagen.Types.Store.{SymbolCell, SymbolTable, Compiler, deref}
use metagen.Types.Symt.{symt_new_sym, find_run, symt_find_sym}
use metagen.Types.Pointers.{deref-bound, deref-within}
use metagen.Types.Scopes.{IsValid, ok-inj}
use metagen.Types.Grow.{Added, symt_new_sym-Added}

module _ (h : StrMap) where
  open h use {Map, get}

  -- The name `key` in the scope of the table at an address stands for a symbol, or for none, which is 0.
  pub data Finds (c : Compiler Map) (key : List ℕ) : ℕ → ℕ → Type 0 where
    at_top : Finds c key 0 0
    here :
        (p : ℕ) (t : SymbolTable Map)
        → deref c.tables p ≡ ok t
        → get t.map key ≢ 0
        → Finds c key p (get t.map key)
    outside :
        (p : ℕ) (t : SymbolTable Map) (s : ℕ)
        → deref c.tables p ≡ ok t
        → get t.map key ≡ 0
        → Finds c key t.parent s
        → Finds c key p s

  -- A symbol with that name, unless it is NULL.
  abbrev pub Named : Compiler Map → List ℕ → ℕ → Type 0
  Named c key s = s ≢ 0 → (cell : SymbolCell) × (deref c.cells s ≡ ok cell) × (cell.sym.name ≡ key)

  Finds-Named :
      (c : Compiler Map) (key : List ℕ) (p s : ℕ) → IsValid h c → Finds c key p s → Named c key s
  Finds-Named c key p s v at_top d = absurd (d refl)
  Finds-Named c key p s v (here q t at found) d =
      let m = (v.scopes q t at).mapped key found in (m.cell, m.live, m.named)
  Finds-Named c key p s v (outside q t z at none_here up) d = Finds-Named c key t.parent z v up d

  -- The rounds of the loop are bounded by the address, since the parent of a table is older.
  find_run-Finds :
      (f : ℕ) (c : Compiler Map) (p : ℕ) (key : List ℕ)
      → p < f
      → p ≤ length c.tables
      → IsValid h c
      → Ensures (Finds c key p) (find_run h f c p key)
  unfolding find_run
  find_run-Finds zero c p key lt le v = absurd (omega (arith, lt))
  find_run-Finds (suc f) c zero key lt le v = at_top
  find_run-Finds (suc f) c (suc n) key lt le v =
      let (t, at) = deref-within c.tables (suc n) (omega arith) le in
      let k = (v.scopes (suc n) t at).outer in
      rw (at) (
        if_split (Ensures (Finds c key (suc n))) (get t.map key == 0)
          {x = find_run h f c t.parent key} {y = ok (get t.map key)}
          (λ e.
            Ensures-imp (Finds c key t.parent) (Finds c key (suc n)) (find_run h f c t.parent key)
              (λ s up. outside (suc n) t s at ((==_iff (get t.map key) 0).0 e) up)
              (find_run-Finds f c t.parent key (omega (arith, k, lt)) (omega (arith, k, le)) v))
          (λ e. here (suc n) t at (λ z. let r = (==_iff (get t.map key) 0).1 z in cc)))

  -- A lookup in a tree of scopes ends, at the symbol that the innermost table with the name has, or at
  -- NULL when no table has it; and the symbol has the name.
  pub symt_find_sym-Finds :
      (c : Compiler Map) (p : ℕ) (key : List ℕ)
      → p ≤ length c.tables
      → IsValid h c
      → Ensures (λ s. Finds c key p s × Named c key s) (symt_find_sym h c p key)
  unfolding symt_find_sym
  symt_find_sym-Finds c p key le v =
      Ensures-imp (Finds c key p) (λ s. Finds c key p s × Named c key s)
        (find_run h (suc (length c.tables)) c p key) (λ s k. (k, Finds-Named c key p s v k))
        (find_run-Finds (suc (length c.tables)) c p key (omega (arith, le)) le v)

  -- The description has one answer.
  Finds-unique :
      (c : Compiler Map) (key : List ℕ) (p s z : ℕ) → Finds c key p s → Finds c key p z → s ≡ z
  Finds-unique c key p s z at_top at_top = refl
  Finds-unique c key p s z at_top (here q t at d) = cc
  Finds-unique c key p s z at_top (outside q t y at e up) = cc
  Finds-unique c key p s z (here q t at d) at_top = cc
  Finds-unique c key p s z (outside q t y at e up) at_top = cc
  Finds-unique c key p s z (here q t at d) (here q' t' at' d') =
      ap (λ (x : SymbolTable Map). get x.map key) (ok-inj t t' (deref c.tables p) at at')
  Finds-unique c key p s z (here q t at d) (outside q' t' y at' e up) =
      absurd (
        d (ap (λ (x : SymbolTable Map). get x.map key) (ok-inj t t' (deref c.tables p) at at') ∙ e))
  Finds-unique c key p s z (outside q t y at e up) (here q' t' at' d) =
      absurd (
        d (ap (λ (x : SymbolTable Map). get x.map key) (ok-inj t' t (deref c.tables p) at' at) ∙ e))
  Finds-unique c key p s z (outside q t y at e up) (outside q' t' y' at' e' up') =
      let same = ap (λ (x : SymbolTable Map). x.parent) (ok-inj t' t (deref c.tables p) at' at) in
      Finds-unique c key t.parent s z up (rw (← same) up')

  -- So a lookup gives it.
  symt_find_sym-eq :
      (c : Compiler Map) (p s : ℕ) (key : List ℕ)
      → p ≤ length c.tables
      → IsValid h c
      → Finds c key p s
      → symt_find_sym h c p key ≡ ok s
  symt_find_sym-eq c p s key le v k =
      let (z, e, both) =
        Ensures-value (λ s. Finds c key p s × Named c key s) (symt_find_sym h c p key)
          (symt_find_sym-Finds c p key le v) in
      e ∙ ap ok (Finds-unique c key p z s both.0 k)

  -- Other names are found as before.
  Added-Finds :
      (c : Compiler Map) (p : ℕ) (name key : List ℕ) (r : ℕ × Compiler Map) (q s : ℕ)
      → Added h c p name r
      → name ≢ key
      → Finds c key q s
      → Finds r.1 key q s
  Added-Finds c p name key r q s a d at_top = at_top
  Added-Finds c p name key r q s a d (here q' t at found) =
      let (t', at', keeps) = a.others q t at in
      rw (← keeps.rest key d) (here q t' at' (λ z. found (sym (keeps.rest key d) ∙ z)))
  Added-Finds c p name key r q s a d (outside q' t y at e up) =
      let (t', at', keeps) = a.others q t at in
      outside q t' s at' (keeps.rest key d ∙ e)
        (rw (keeps.parent) (Added-Finds c p name key r t.parent s a d up))

  -- In a tree of scopes, a symbol that symt_new_sym makes without a report, with a type if it is a
  -- type's, is the one that a lookup of its name in that scope gives, and a lookup of any other name in any
  -- scope gives what it gave before.
  pub symt_find_sym-symt_new_sym :
      (c : Compiler Map) (p : ℕ) (kind : SymbolKind) (name : List ℕ) (t : Option TypeInfo) (s : ℕ)
      (c' : Compiler Map)
      → (is_symbol_type kind ≡ true → t ≢ none)
      → 1 ≤ p
      → p ≤ length c.tables
      → IsValid h c
      → symt_new_sym h c p kind name t ≡ ok (s, c')
      → c'.e.errors ≡ c.e.errors
      → (symt_find_sym h c' p name ≡ ok s)
        × ((q : ℕ) (key : List ℕ)
            → q ≤ length c.tables
            → name ≢ key
            → symt_find_sym h c' q key ≡ symt_find_sym h c q key)
  symt_find_sym-symt_new_sym c p kind name t s c' typed low high v made silent =
      let a : Added h c p name (s, c') =
        Runs-ok (Added h c p name) (symt_new_sym h c p kind name t) (s, c') made
          (Ensures-Runs (Added h c p name) (symt_new_sym h c p kind name t)
            (symt_new_sym-Added h c p kind name t typed low high v)) in
      let grown = a.more.tables in
      (
        (let (t', at, is_s) = a.made silent in
            symt_find_sym-eq c' p s name (omega (arith, high, grown)) a.valid (
              rw (← is_s) (
                here p t' at (λ z.
                  let b = (deref-bound c'.cells s a.named.0 a.named.1).0 in
                  omega (arith, b, z, is_s))))),
        λ q key le d.
            (let (z, e, both) =
                Ensures-value (λ s. Finds c key q s × Named c key s) (symt_find_sym h c q key)
                  (symt_find_sym-Finds c q key le v) in
              symt_find_sym-eq c' q z key (omega (arith, le, grown)) a.valid
                (Added-Finds c p name key (s, c') q z a d both.0)
              ∙ sym e),
      )
