-- ===== src/Types/Tests.antt =====
-- Types compared, and the passes over a small program.
use metagen.Base.{
  ℕ, ◌+◌, ◌≡◌, ◌≢◌, ◌≤◌, refl, arith, true, false, String, List, [], ◌∷◌, length, none, some, codes,
  bytes_eq, if◌then◌else◌, ok, Ensures, Ensures-Runs, Runs-ok, Settles,
}
use metagen.HashMap.{StrMap}
use metagen.Diagnostics.{error_handler_init}
use metagen.Lex.Token.{token_plus, is_kind}
use metagen.Ast.{
  AstExpr, expr_binary, expr_literal, lit_ident, lit_num, AstStmt, stmt_block, stmt_assignment,
  then_stmt, none_left,
}
use metagen.Types.{
  TypeInfo, integer, array, pointer, func, null_pointer, type_info_equal, type_info_bit_size,
  symbol_type, symbol_func, symbol_local_var, Symbol,
}
use metagen.Types.Store.{TypeInfoStructMember, Compiler}
use metagen.Types.Layout.{resize, place_members}
use metagen.Types.Offsets.{Apart, total_size, place_members-Apart}
use metagen.Types.Symt.{
  symt_init, add_symbol, existing_sym, with_symbol, symt_new_sym, find_run, symt_find_sym,
}
use metagen.Types.Infer.{bind_stmt}
use metagen.Types.Check.{
  equal_types, compare, sym_type, literal_type, typecheck_operands, typecheck_expr, expr_size,
}
use metagen.Types.Scopes.{IsValid}
use metagen.Types.Insert.{Scoped-root}
use metagen.Types.Grow.{Added, symt_new_sym-Added}
use metagen.Types.Lookup.{Finds, Named, symt_find_sym-Finds, symt_find_sym-symt_new_sym}
use metagen.Types.Bound.{BoundStmt}
use metagen.Types.Binding.{Ready}
use metagen.Types.Blocks.{After}
use metagen.Types.Statements.{bind_stmt-After}
use metagen.Types.Accepts.{Typed}
use metagen.Types.Sound.{typecheck_expr-Typed}
use metagen.Types.Equal.{type_info_equal_sym, type_info_equal_trans}

-- `pointer_to` a table of four numbers, under a name of its own.
abbrev table : TypeInfo
table = pointer [] (array [] (integer (codes "s32") 32 true) 4) 1

abbrev named_table : TypeInfo
named_table = pointer (codes "Table") (array [] (integer (codes "s32") 32 true) 4) 1

type_info_equal_sym_example : type_info_equal (null_pointer []) table ≡ true
unfolding type_info_equal
type_info_equal_sym_example = type_info_equal_sym table (null_pointer []) refl

type_info_equal_trans_example : type_info_equal named_table (null_pointer []) ≡ true
unfolding type_info_equal bytes_eq
type_info_equal_trans_example =
    type_info_equal_trans named_table table (null_pointer []) tt refl refl

-- An association list in place of the hash map.
abbrev assoc_get : List (List ℕ × ℕ) → List ℕ → ℕ
assoc_get [] j = 0
assoc_get ((k, v) ∷ m) j = if bytes_eq k j then v else assoc_get m j

abbrev assoc_map : StrMap
assoc_map = record {
  Map = List (List ℕ × ℕ);
  init = [];
  get = assoc_get;
  put = λ m k v. (k, v) ∷ m;
  get-init = λ k. refl;
  get-put = λ m k j v. refl;
}

abbrev s32 : TypeInfo
s32 = integer (codes "s32") 32 true

-- The root alone, and with the type s32.
abbrev empty_root : Compiler (assoc_map.Map)
empty_root = record {
  e = error_handler_init;
  tables = symt_init assoc_map 0 ∷ [];
  cells = [];
  sym_null = 0;
  all_types = [];
  struct_types = [];
  structs = [];
  funcs = [];
}

abbrev with_s32 : Compiler (assoc_map.Map)
with_s32 =
    (add_symbol assoc_map empty_root 1 (symt_init assoc_map 0) symbol_type (codes "s32")
      (some s32)).1

symt_new_sym-Added_example :
    Ensures
      (Added assoc_map empty_root 1 (codes "s32"))
      (symt_new_sym assoc_map empty_root 1 symbol_type (codes "s32") (some s32))
symt_new_sym-Added_example =
    symt_new_sym-Added assoc_map empty_root 1 symbol_type (codes "s32") (some s32) (λ z e. cc)
      (omega arith) (omega arith) (Scoped-root assoc_map)

s32_made :
    symt_new_sym assoc_map empty_root 1 symbol_type (codes "s32") (some s32) ≡ ok (1, with_s32)
unfolding symt_new_sym existing_sym symt_init add_symbol
s32_made = refl

with_s32-IsValid : IsValid assoc_map with_s32
with_s32-IsValid =
    (Runs-ok (Added assoc_map empty_root 1 (codes "s32"))
      (symt_new_sym assoc_map empty_root 1 symbol_type (codes "s32") (some s32)) (1, with_s32)
      s32_made
      (Ensures-Runs (Added assoc_map empty_root 1 (codes "s32"))
        (symt_new_sym assoc_map empty_root 1 symbol_type (codes "s32") (some s32))
        (symt_new_sym-Added assoc_map empty_root 1 symbol_type (codes "s32") (some s32) (λ z e. cc)
          (omega arith) (omega arith) (Scoped-root assoc_map)))).valid

one_table : length with_s32.tables ≡ 1
unfolding add_symbol
one_table = refl

symt_find_sym-Finds_example :
    Ensures
      (λ s. Finds assoc_map with_s32 (codes "s32") 1 s × Named assoc_map with_s32 (codes "s32") s)
      (symt_find_sym assoc_map with_s32 1 (codes "s32"))
symt_find_sym-Finds_example =
    symt_find_sym-Finds assoc_map with_s32 1 (codes "s32") (omega (arith, one_table))
      with_s32-IsValid

abbrev with_main : ℕ × Compiler (assoc_map.Map)
with_main =
    add_symbol assoc_map with_s32 1 (with_symbol assoc_map (symt_init assoc_map 0) (codes "s32") 1)
      symbol_func (codes "main") (some (func (codes "main")))

main_made :
    symt_new_sym assoc_map with_s32 1 symbol_func (codes "main") (some (func (codes "main")))
    ≡ ok (2, with_main.1)
unfolding symt_new_sym existing_sym symt_init add_symbol with_symbol bytes_eq
main_made = refl

no_report : with_main.1.e.errors ≡ with_s32.e.errors
unfolding add_symbol
no_report = refl

symt_find_sym-symt_new_sym_example :
    (symt_find_sym assoc_map with_main.1 1 (codes "main") ≡ ok 2)
    × ((q : ℕ) (key : List ℕ)
        → q ≤ length with_s32.tables
        → codes "main" ≢ key
        → symt_find_sym assoc_map with_main.1 q key ≡ symt_find_sym assoc_map with_s32 q key)
symt_find_sym-symt_new_sym_example =
    symt_find_sym-symt_new_sym assoc_map with_s32 1 symbol_func (codes "main")
      (some (func (codes "main"))) 2 with_main.1 (λ z. cc) (omega arith) (omega (arith, one_table))
      with_s32-IsValid main_made no_report

-- A block that declares i and assigns to it.
abbrev i_name : AstExpr
i_name = expr_literal none none lit_ident (codes "i")

abbrev body : AstStmt
body =
    stmt_block
      (record {
        name = codes "i";
        ast_type_info = record {
          name = codes "s32";
          pointer_indirection = 0;
          is_array = false;
          elements = 0;
        };
      }
        ∷ [])
      (then_stmt (stmt_assignment i_name (expr_literal none none lit_num (codes "1"))) none_left) 0
      none

with_s32-Ready : Ready assoc_map with_s32
unfolding add_symbol
with_s32-Ready = record { valid = with_s32-IsValid; null_live = λ d. absurd (d refl) }

bind_stmt-After_example :
    Ensures
      (λ r. After assoc_map with_s32 (BoundStmt r.0) r.1)
      (bind_stmt assoc_map with_s32 1 body)
bind_stmt-After_example =
    bind_stmt-After assoc_map with_s32 1 body with_s32-Ready (omega (arith, one_table))
      ((tt, tt), tt)

-- A bound `i + 1`.
abbrev i_symbol : Symbol
i_symbol = record { kind = symbol_local_var; seq_no = 0; name = codes "i"; type_info = some s32 }

abbrev sum : AstExpr
sum =
    expr_binary none (expr_literal none (some i_symbol) lit_ident (codes "i")) token_plus
      (expr_literal none none lit_num (codes "1"))

-- It is accepted, with the type s32 in every node.
sum_accepted :
    typecheck_expr assoc_map 4 with_s32 1 sum error_handler_init
    ≡ ok (
      expr_binary
          (some s32)
          (expr_literal (some s32) (some i_symbol) lit_ident (codes "i"))
          token_plus
          (expr_literal (some s32) none lit_num (codes "1")),
      error_handler_init,
    )
unfolding typecheck_expr typecheck_operands literal_type sym_type compare equal_types
    type_info_equal bytes_eq symt_find_sym find_run add_symbol with_symbol symt_init is_kind
sum_accepted = refl

typecheck_expr-Typed_example :
    Settles
      (Typed assoc_map with_s32 1 error_handler_init)
      (typecheck_expr assoc_map 4 with_s32 1 sum error_handler_init)
unfolding expr_size
typecheck_expr-Typed_example =
    typecheck_expr-Typed assoc_map with_s32 with_s32-IsValid 4 1 sum error_handler_init
      (omega (arith, one_table)) (omega arith)

-- struct Point { x: s32, y: ^s32 } has y at 32, behind x, and ends at 40.
abbrev member_of : String → TypeInfo → TypeInfoStructMember
member_of text t = record {
  name = codes text;
  offset = 0;
  ast_type_info = record {
    name = codes "s32";
    pointer_indirection = 0;
    is_array = false;
    elements = 0;
  };
  type = some t;
}

abbrev point_members : List TypeInfoStructMember
point_members = member_of "x" s32 ∷ member_of "y" (pointer (codes "s32") s32 1) ∷ []

place_members-Apart_example :
    Ensures
      (λ r. (r.1 ≡ 0 + total_size point_members) × Apart 0 r.1 point_members r.0)
      (place_members (codes "Point") 0 point_members)
unfolding type_info_bit_size
place_members-Apart_example =
    place_members-Apart (codes "Point") 0 point_members
      ((s32, refl, tt), ((pointer (codes "s32") s32 1, refl, tt), tt)) (omega arith)

point_placed :
    place_members (codes "Point") 0 point_members
    ≡ ok (
      member_of "x" s32 ∷ record (member_of "y" (pointer (codes "s32") s32 1)) { offset = 32 } ∷ [],
      40,
    )
unfolding place_members type_info_bit_size resize
point_placed = refl
