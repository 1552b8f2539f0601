-- ===== src/Types/Layout.antt =====
-- The sizes of structs and the offsets of their members, and the graph of the structs that stand in
-- others (compiler/type.c: graph_add_edges_from_struct_type, typegen). The graphs are the library nag.
-- A type carries the size of its struct, so a new size is written into every type that names it. The
-- indices of structs are u16. Fewer than 2 ^ 16 members and structs are assumed.
use metagen.Base.{
  ℕ, suc, ◌+◌, ◌%◌, ◌^◌, Bool, true, false, List, [], ◌∷◌, ◌++◌, map, Option, none, some, ◌==◌,
  if◌then◌else◌, length, get_elem?, codes, bytes_eq, Outcome, ok, fault, bad_access, undefined,
  ◌>>=◌,
}
use metagen.Base.Int.{pos}
use metagen.Diagnostics.{ErrorHandler, error_msg_str8}
use metagen.Str.Builder.{
  Str8Builder, make_str_builder, str_builder_append_str8, int_arg, str_builder_sprintf,
  str_builder_end,
}
use metagen.Types.{TypeInfo, struct, array, pointer, type_info_bit_size}
use metagen.Types.Store.{SymbolCell, TypeInfoStructMember, TypeInfoStruct, TypeInfoFunc, Compiler}
use metagen.Types.Global.{struct_named, assign_struct}

-- The graphs of base/nag.h, a copy of a library, over the nodes 0 to n - 1.
pub record Nag : Type 1 where
  pub Graph : Type 0
  pub make_graph : ℕ → Graph
  pub add_edge : Graph → (from to : ℕ) → Graph
  pub scc : Graph → List (List ℕ)
  pub rev_toposort : Graph → List ℕ

-- The struct of a member's type: its own, or that of its elements.
abbrev pub struct_of : TypeInfo → Option (List ℕ)
struct_of (struct name bits) = some name
struct_of (array name (struct element bits) n) = some element
struct_of _ = none

-- `struct_id`: the place in the list of structs.
unfoldable pub struct_id : List (List ℕ) → List ℕ → Outcome ℕ
struct_id [] name = fault undefined
struct_id (n ∷ ns) name =
    let rest = struct_id ns name in if bytes_eq n name then ok 0 else (rest >>= λ i. ok (suc i))

unfoldable pub contains : ℕ → List ℕ → Bool
contains x [] = false
contains x (y ∷ ys) = let rest = contains x ys in if y == x then true else rest

-- A struct's size in every type that names it.
unfoldable pub resize : List ℕ → ℕ → TypeInfo → TypeInfo
resize name size (struct n bits) = if bytes_eq n name then struct n size else struct n bits
resize name size (array n t elements) = array n (resize name size t) elements
resize name size (pointer n t level) = pointer n (resize name size t) level
resize name size t = t

abbrev pub resize_option : List ℕ → ℕ → Option TypeInfo → Option TypeInfo
resize_option name size none = none
resize_option name size (some t) = some (resize name size t)

-- The members with their offsets, and the size behind them, from size `bits`: the struct's own size is
-- what has been added up so far.
unfoldable pub place_members :
    List ℕ → ℕ → List TypeInfoStructMember → Outcome (List TypeInfoStructMember × ℕ)
place_members name bits [] = ok ([], bits)
place_members name bits (m ∷ ms) = elim (m.type) [
  | none ↦ fault bad_access
  | some t ↦ (do
    (members, size) ←
        place_members name ((bits + type_info_bit_size (resize name bits t)) % 2 ^ 32) ms
    ok (record m { offset = bits } ∷ members, size))
]

-- The text of the report on a cycle.
unfoldable pub circular_nodes : Str8Builder → List ℕ → Outcome Str8Builder
circular_nodes sb [] = ok sb
circular_nodes sb (node ∷ nodes) =
    str_builder_sprintf sb (codes " <- %d") (int_arg (pos node) ∷ []) >>= λ sb₁.
    circular_nodes sb₁ nodes

unfoldable pub circular_message : List ℕ → Outcome (List ℕ)
circular_message [] = fault bad_access
circular_message (node ∷ nodes) = do
  sb ← str_builder_append_str8 make_str_builder (codes "Circular dependency between structs: ")
  sb₁ ← str_builder_sprintf sb (codes "%d") (int_arg (pos node) ∷ [])
  sb₂ ← circular_nodes sb₁ (node ∷ nodes)
  str_builder_end sb₂ true

unfoldable pub report_sccs : ErrorHandler → List (List ℕ) → Outcome ErrorHandler
report_sccs e [] = ok e
report_sccs e (scc ∷ sccs) = circular_message scc >>= λ msg. report_sccs (error_msg_str8 e msg) sccs

-- `arraylist_get` for every node in order.
unfoldable pub sorted_structs : List (List ℕ) → List ℕ → Outcome (List (List ℕ))
sorted_structs names [] = ok []
sorted_structs names (node ∷ nodes) = elim (get_elem? names node) [
  | none ↦ fault bad_access
  | some name ↦ sorted_structs names nodes >>= λ rest. ok (name ∷ rest)
]

module _ (nag : Nag) where
  open nag use {Graph, make_graph, add_edge, scc, rev_toposort}

  -- `added` is the list of the nodes that have an edge from `from`.
  unfoldable pub add_edges :
      List (List ℕ) → ℕ → Graph → List ℕ → List TypeInfoStructMember → Outcome Graph
  add_edges names from graph added [] = ok graph
  add_edges names from graph added (m ∷ ms) = elim (m.type) [
    | none ↦ fault bad_access
    | some t ↦ elim (struct_of t) [
      | none ↦ add_edges names from graph added ms
      | some name ↦ struct_id names name >>= λ to.
          let duplicate = add_edges names from graph added ms in
          let fresh = add_edges names from (add_edge graph from to) (added ++ to ∷ []) ms in
          if contains to added then duplicate else fresh
    ]
  ]

  unfoldable pub graph_add_edges_from_struct_type :
      List (List ℕ) → Graph → TypeInfoStruct → Outcome Graph
  graph_add_edges_from_struct_type names graph t =
      struct_id names t.generated_by >>= λ from. add_edges names from graph [] t.members

  unfoldable pub add_all_edges :
      List TypeInfoStruct → List (List ℕ) → Graph → List (List ℕ) → Outcome Graph
  add_all_edges structs names graph [] = ok graph
  add_all_edges structs names graph (name ∷ rest) = do
    t ← struct_named structs name
    graph₁ ← graph_add_edges_from_struct_type names graph t
    add_all_edges structs names graph₁ rest

  unfoldable pub struct_graph : List TypeInfoStruct → List (List ℕ) → Outcome Graph
  struct_graph structs names =
      add_all_edges structs names (make_graph (length names % 2 ^ 16)) names

module _ (M : Type 0) where
  -- A new size, wherever the struct's type is pointed to.
  abbrev resize_member : List ℕ → ℕ → TypeInfoStructMember → TypeInfoStructMember
  resize_member name size m = record m { type = resize_option name size m.type }

  abbrev resize_struct : List ℕ → ℕ → TypeInfoStruct → TypeInfoStruct
  resize_struct name size s = record s { members = map (resize_member name size) s.members }

  abbrev resize_func : List ℕ → ℕ → TypeInfoFunc → TypeInfoFunc
  resize_func name size f = record f {
    param_types = map (resize_option name size) f.param_types;
    return_type = resize_option name size f.return_type;
  }

  abbrev resize_cell : List ℕ → ℕ → SymbolCell → SymbolCell
  resize_cell name size cell = record cell {
    sym = record (cell.sym) { type_info = resize_option name size cell.sym.type_info };
  }

  unfoldable pub resize_all : Compiler M → List ℕ → ℕ → Compiler M
  resize_all c name size = record c {
    cells = map (resize_cell name size) c.cells;
    all_types = map (resize name size) c.all_types;
    structs = map (resize_struct name size) c.structs;
    funcs = map (resize_func name size) c.funcs;
  }

  -- The size of one struct, and of the structs of a list in turn.
  unfoldable pub size_struct : Compiler M → TypeInfoStruct → Outcome (Compiler M)
  size_struct c s = do
    (members, size) ← place_members s.generated_by 0 s.members
    ok (
        resize_all
          (record c {
            structs = assign_struct c.structs (record s { bit_size = size; members = members });
          })
          s.generated_by size)

  unfoldable pub size_structs : Compiler M → List (List ℕ) → Outcome (Compiler M)
  size_structs c [] = ok c
  size_structs c (name ∷ names) = do
    s ← struct_named c.structs name
    c₁ ← size_struct c s
    size_structs c₁ names
