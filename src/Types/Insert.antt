-- ===== src/Types/Insert.antt =====
-- New symbols and new tables (compiler/type.c: symt_init, symt_new_sym) in a tree of scopes.
use metagen.Base.{
  ℕ, zero, suc, ◌≤◌, ◌<◌, ◌≡◌, ◌≢◌, inl, inr, refl, sym, ap, ◌∙◌, arith, false, List, [], ◌∷◌, ◌++◌,
  length, bytes_eq, bytes_eq_iff, bytes_eq_refl, Bool-cases, ok, length-append,
}
use metagen.HashMap.{StrMap}
use metagen.Types.Store.{SymbolCell, SymbolTable, deref, assign}
use metagen.Types.Symt.{symt_init, with_symbol}
use metagen.Types.Pointers.{
  deref-bound, deref-append, deref-last, deref-append-cases, deref-assign, deref-assign-other,
  length-assign,
}
use metagen.Types.Scopes.{CellOk, Holds, TableOk, Scoped, Nat-cases, ok-inj}

module _ (h : StrMap) where
  open h use {Map, init, get, put, get-init, get-put}

  pub TableOk-append :
      (cells more : List SymbolCell) (p : ℕ) (t : SymbolTable Map)
      → TableOk h cells p t
      → TableOk h (cells ++ more) p t
  TableOk-append cells more p t k = record {
    outer = k.outer;
    mapped = λ key d.
        let m = k.mapped key d in
        record {
          cell = m.cell;
          live = deref-append cells more (get t.map key) m.cell m.live;
          named = m.named;
          placed = m.placed;
          found = m.found;
        };
    listed = λ i s e.
        let (cell, live, number, found) = k.listed i s e in
        (cell, deref-append cells more s cell live, number, found);
  }

  pub symt_init-TableOk :
      (cells : List SymbolCell) (parent p : ℕ) → parent < p → TableOk h cells p (symt_init h parent)
  unfolding symt_init
  symt_init-TableOk cells parent p lt = record {
    outer = lt;
    mapped = λ key d. absurd (d (get-init key));
    listed = λ i s e. cc;
  }

  -- The map after a new symbol, at its name and at another.
  pub with_symbol-same :
      (t : SymbolTable Map) (name : List ℕ) (s : ℕ) → get ((with_symbol h t name s).map) name ≡ s
  unfolding with_symbol
  with_symbol-same t name s = rw (get-put t.map name name s, bytes_eq_refl name) refl

  pub with_symbol-other :
      (t : SymbolTable Map) (name key : List ℕ) (s : ℕ)
      → name ≢ key
      → get ((with_symbol h t name s).map) key ≡ get t.map key
  unfolding with_symbol
  with_symbol-other t name key s d =
      let e : bytes_eq name key ≡ false = elim (Bool-cases (bytes_eq name key)) [
        | inl e ↦ absurd (d ((bytes_eq_iff name key).0 e))
        | inr e ↦ e
      ] in
      rw (get-put t.map name key s, e) refl

  -- The new symbol's cell fits the table it goes to.
  module _ (cells : List SymbolCell) (p : ℕ) (t : SymbolTable Map) (cell : SymbolCell) where
    symbol-Holds :
        (key : List ℕ) (s : ℕ)
        → TableOk h cells p t
        → cell.sym.seq_no ≡ length t.symbols
        → get ((with_symbol h t cell.sym.name (suc (length cells))).map) key ≡ s
        → s ≢ 0
        → Holds h (cells ++ cell ∷ []) (with_symbol h t cell.sym.name (suc (length cells))) key s
    unfolding with_symbol
    symbol-Holds key s k number e d = elim (Bool-cases (bytes_eq cell.sym.name key)) [
      | inl q ↦
          let name : cell.sym.name ≡ key = (bytes_eq_iff cell.sym.name key).0 q in
          let at_end : suc (length cells) ≡ s =
            sym (with_symbol-same t cell.sym.name (suc (length cells)))
            ∙ ap (λ n. get ((with_symbol h t cell.sym.name (suc (length cells))).map) n) name
            ∙ e in
          record {
            cell = cell;
            live = rw (← at_end) (deref-last cells cell);
            named = name;
            placed = rw (number, ← at_end) (deref-last t.symbols (suc (length cells)));
            found = e;
          }
      | inr q ↦
          let other : get t.map key ≡ s =
            sym (
              with_symbol-other t cell.sym.name key (suc (length cells))
                (λ z. let r = (bytes_eq_iff cell.sym.name key).1 z in cc))
            ∙ e in
          let m = k.mapped key (λ z. d (sym other ∙ z)) in
          record {
            cell = m.cell;
            live = deref-append cells (cell ∷ []) s m.cell (rw (← other) m.live);
            named = m.named;
            placed =
                deref-append t.symbols (suc (length cells) ∷ []) (suc m.cell.sym.seq_no) s
                  (rw (← other) m.placed);
            found = e;
          }
    ]

    pub with_symbol-TableOk :
        TableOk h cells p t
        → get t.map cell.sym.name ≡ 0
        → cell.sym.seq_no ≡ length t.symbols
        → TableOk h (cells ++ cell ∷ []) p (with_symbol h t cell.sym.name (suc (length cells)))
    unfolding with_symbol
    with_symbol-TableOk k free number = record {
      outer = k.outer;
      mapped = λ key d.
          symbol-Holds key (get ((with_symbol h t cell.sym.name (suc (length cells))).map) key) k
            number refl d;
      listed = λ i s e. elim (deref-append-cases t.symbols (suc (length cells)) (suc i) s e) [
        | inl old ↦
            let (cell', live, place, found) = k.listed i s old in
            (
              cell',
              deref-append cells (cell ∷ []) s cell' live,
              place,
              with_symbol-other t cell.sym.name cell'.sym.name (suc (length cells)) (λ z.
                    let zero_at : s ≡ 0 = sym found ∙ ap (get t.map) (sym z) ∙ free in
                    let b = (deref-bound cells s cell' live).0 in omega (arith, zero_at, b))
                  ∙ found,
            )
        | inr new ↦ (
          cell,
          rw (new.1) (deref-last cells cell),
          (let a = new.0 in omega (arith, number, a)),
          with_symbol-same t cell.sym.name (suc (length cells)) ∙ sym new.1,
        )
      ];
    }

  pub Scoped-mono :
      (tables : List (SymbolTable Map)) (cells : List SymbolCell) (n m : ℕ)
      → n ≤ m
      → Scoped h tables cells n
      → Scoped h tables cells m
  Scoped-mono tables cells n m le v = record {
    rooted = v.rooted;
    scopes = v.scopes;
    owned = λ s cell e.
        let k = v.owned s cell e in
        record { own = (let a = k.own in omega (arith, a, le)); typed = k.typed };
  }

  -- A new table without symbols.
  pub Scoped-table :
      (tables : List (SymbolTable Map)) (cells : List SymbolCell) (n p parent : ℕ)
      → parent ≤ length tables
      → Scoped h tables cells n
      → Scoped h (tables ++ record (symt_init h p) { parent = parent } ∷ []) cells n
  unfolding symt_init
  Scoped-table tables cells n p parent le v = record {
    rooted =
        (let a = v.rooted in
          let l = length-append tables (record (symt_init h p) { parent = parent } ∷ []) in
          omega (arith, a, l));
    scopes = λ q t e.
        elim (deref-append-cases tables (record (symt_init h p) { parent = parent }) q t e) [
          | inl old ↦ v.scopes q t old
          | inr new ↦ rw (new.1) (record {
            outer = (let a = new.0 in omega (arith, a, le));
            mapped = λ key d. absurd (d (get-init key));
            listed = λ i s z. cc;
          })
        ];
    owned = v.owned;
  }

  -- A new symbol in the table at `p`.
  pub Scoped-symbol :
      (tables : List (SymbolTable Map)) (cells : List SymbolCell) (n p : ℕ) (t : SymbolTable Map)
      (cell : SymbolCell)
      → deref tables p ≡ ok t
      → get t.map cell.sym.name ≡ 0
      → cell.sym.seq_no ≡ length t.symbols
      → CellOk n cell
      → Scoped h tables cells n
      → Scoped h
          (assign tables p (with_symbol h t cell.sym.name (suc (length cells))))
          (cells ++ cell ∷ [])
          n
  Scoped-symbol tables cells n p t cell at free number fits v =
      let t' = with_symbol h t cell.sym.name (suc (length cells)) in
      record {
        rooted = (let a = v.rooted in let l = length-assign tables p t' in omega (arith, a, l));
        scopes = λ q u e. elim (Nat-cases q p) [
          | inl same ↦
              let u_is : u ≡ t' =
                ok-inj u t' (deref (assign tables p t') p)
                  (sym (ap (deref (assign tables p t')) same) ∙ e)
                  (deref-assign tables p t t' at) in
              rw (same, u_is) (with_symbol-TableOk cells p t cell (v.scopes p t at) free number)
          | inr d ↦
              TableOk-append cells (cell ∷ []) q u
                (v.scopes q u (sym (deref-assign-other tables p q t' d) ∙ e))
        ];
        owned = λ s other e. elim (deref-append-cases cells cell s other e) [
          | inl old ↦ v.owned s other old
          | inr new ↦ rw (new.1) fits
        ];
      }

  -- The tree of a compiler that has its root only.
  only_root : (p : ℕ) (t : SymbolTable Map) → deref (symt_init h 0 ∷ []) p ≡ ok t → TableOk h [] p t
  only_root zero t e = cc
  only_root (suc zero) t e =
      rw (ok-inj t (symt_init h 0) (ok (symt_init h 0)) e refl)
        (symt_init-TableOk [] 0 1 (omega arith))
  only_root (suc (suc n)) t e = cc

  pub Scoped-root : Scoped h (symt_init h 0 ∷ []) [] 1
  Scoped-root = record {
    rooted = omega arith;
    scopes = only_root;
    owned = λ s cell e.
        (let b = deref-bound [] s cell e in
          let low = b.0 in let high = b.1 in absurd (omega (arith, low, high)));
  }
