-- ===== src/Comptime/Expressions.antt =====
-- What an expression means to the bytecode compiler and the machine (compiler/comptime): its value in
-- a store, the cells of the stack by their index, and the cells that its code uses.
use Prim.Native.Nat.{max}
use metagen.Base.{
  ℕ, ◌+◌, ◌≤◌, ◌<◌, ◌≡◌, ◌⊎◌, refl, sym, ap, List, some, none, Outcome, ok, fault, undefined, ◌>>=◌,
  Ensures,
}
use metagen.Base.Int.{ℤ, pos}
use metagen.Lex.Token.{
  TokenKind, token_plus, token_minus, token_eq, token_neq, token_greater, token_less,
}
use metagen.Ast.{
  lit_str, lit_ident, lit_num, lit_null, AstExpr, expr_null, expr_unary, expr_binary, expr_literal,
  expr_call,
}
use metagen.Str.{str_view_to_u32}
use metagen.Comptime.Word.{not_word, add_words, sub_words, greater_words, less_words}
use metagen.HashMap.{StrMap}
use metagen.Comptime.Compile.{find_ident_offset}
use metagen.Comptime.Machine.{stack_max}

-- What an operator of the language gives on two words. An overflow of the difference is undefined
-- for the comparisons by difference too; `!=` gives any number but 0 for true.
unfoldable pub apply_op : TokenKind → ℤ → ℤ → Outcome ℤ
apply_op token_plus a b = add_words a b
apply_op token_minus a b = sub_words a b
apply_op token_eq a b = sub_words a b >>= λ d. ok (not_word d)
apply_op token_neq a b = sub_words a b
apply_op token_greater a b = greater_words a b
apply_op token_less a b = less_words a b
apply_op _ a b = fault undefined

-- The cells that the temporaries of an expression take.
unfoldable pub need : AstExpr → ℕ
need (expr_binary type left op right) = max (need right) (1 + need left)
need _ = 1

-- Two stacks with the same cells outside of `lo` to `hi`.
abbrev pub Same : ℕ → ℕ → (ℕ → ℤ) → (ℕ → ℤ) → Type 0
Same lo hi s t = (j : ℕ) → (j < lo) ⊎ (hi ≤ j) → t j ≡ s j

-- A cell of the stack outside of `lo` to `hi`.
abbrev pub Outside : ℕ → ℕ → ℕ → Type 0
Outside lo hi j = (j < stack_max) × ((j < lo) ⊎ (hi ≤ j))

Same-load :
    {lo hi : ℕ} {s t : ℕ → ℤ} (slot : Outcome ℕ)
    → Ensures (Outside lo hi) slot
    → Same lo hi s t
    → (slot >>= λ n. ok (t n)) ≡ (slot >>= λ n. ok (s n))
Same-load (ok n) u m = ap ok (m n u.1)
Same-load (fault f) u m = refl

module _ (h : StrMap) where
  open h use {Map}

  unfoldable pub eval_expr : List Map → (ℕ → ℤ) → AstExpr → Outcome ℤ
  eval_expr locals store (expr_binary type left op right) = do
    a ← eval_expr locals store left
    b ← eval_expr locals store right
    apply_op op a b
  eval_expr locals store (expr_literal type sym lit_num text) = ok (pos (str_view_to_u32 text).0)
  eval_expr locals store (expr_literal type (some sym) lit_ident text) =
      find_ident_offset h locals sym.name >>= λ slot. ok (store slot)
  eval_expr locals store _ = fault undefined

  -- The cells of the expression's variables lie outside of `lo` to `hi`.
  abbrev pub SlotsOutside : List Map → ℕ → ℕ → AstExpr → Type 0
  SlotsOutside locals lo hi (expr_binary type left op right) =
      SlotsOutside locals lo hi left × SlotsOutside locals lo hi right
  SlotsOutside locals lo hi (expr_literal type (some sym) lit_ident text) =
      Ensures (Outside lo hi) (find_ident_offset h locals sym.name)
  SlotsOutside locals lo hi _ = Unit

  pub eval_expr-Same :
      (locals : List Map) (lo hi : ℕ) (s t : ℕ → ℤ) (e : AstExpr)
      → SlotsOutside locals lo hi e
      → Same lo hi s t
      → eval_expr locals t e ≡ eval_expr locals s e
  unfolding eval_expr
  eval_expr-Same locals lo hi s t (expr_binary type l op r) (u, v) m =
      rw (eval_expr-Same locals lo hi s t l u m, eval_expr-Same locals lo hi s t r v m)
  eval_expr-Same locals lo hi s t (expr_literal type sym lit_num text) u m = refl
  eval_expr-Same locals lo hi s t (expr_literal type none lit_ident text) u m = refl
  eval_expr-Same locals lo hi s t (expr_literal type (some sym) lit_ident text) u m =
      Same-load (find_ident_offset h locals sym.name) u m
  eval_expr-Same locals lo hi s t (expr_literal type sym lit_str text) u m = refl
  eval_expr-Same locals lo hi s t (expr_literal type sym lit_null text) u m = refl
  eval_expr-Same locals lo hi s t expr_null u m = refl
  eval_expr-Same locals lo hi s t (expr_unary type op e) u m = refl
  eval_expr-Same locals lo hi s t (expr_call type c n a) u m = refl
