-- ===== src/Types.antt =====
-- Types and symbols (compiler/type.h), and the functions of compiler/type.c that read a type.
-- A struct's members stand in the symbol table under its name, so a type is a finite tree. The
-- s32 number of elements of an array is kept as its 32-bit pattern.
pub mod Equal
pub mod Store
pub mod Pointers
pub mod Scopes
pub mod Insert
pub mod Grow
pub mod Lookup
pub mod Bound
pub mod Binding
pub mod Blocks
pub mod Statements
pub mod Typing
pub mod Sizes
pub mod Accepts
pub mod Callees
pub mod Sound
pub mod Symt
pub mod Resolve
pub mod Infer
pub mod Check
pub mod CheckStmts
pub mod Global
pub mod Layout
pub mod Offsets
pub mod Typegen
mod Tests
use metagen.Base.{ℕ, ◌*◌, ◌%◌, ◌^◌, Bool, true, false, ◌&&◌, List, Option, ◌==◌, bytes_eq}

pub data TypeInfoKind : Type 0 where
  type_integer type_bool type_struct type_enum type_func type_array type_pointer : TypeInfoKind

-- The first field is `generated_by`. `null_pointer` is a pointer whose `pointer_to` is NULL.
pub data TypeInfo : Type 0 where
  integer : List ℕ → (bit_size : ℕ) → (is_signed : Bool) → TypeInfo
  boolean : List ℕ → TypeInfo
  struct : List ℕ → (bit_size : ℕ) → TypeInfo
  enum : List ℕ → TypeInfo
  func : List ℕ → TypeInfo
  array : List ℕ → (element_type : TypeInfo) → (elements : ℕ) → TypeInfo
  pointer : List ℕ → (pointer_to : TypeInfo) → (level_of_indirection : ℕ) → TypeInfo
  null_pointer : List ℕ → TypeInfo

abbrev pub kind : TypeInfo → TypeInfoKind
kind (integer name bits signed) = type_integer
kind (boolean name) = type_bool
kind (struct name bits) = type_struct
kind (enum name) = type_enum
kind (func name) = type_func
kind (array name element n) = type_array
kind (pointer name target level) = type_pointer
kind (null_pointer name) = type_pointer

abbrev pub generated_by : TypeInfo → List ℕ
generated_by (integer name bits signed) = name
generated_by (boolean name) = name
generated_by (struct name bits) = name
generated_by (enum name) = name
generated_by (func name) = name
generated_by (array name element n) = name
generated_by (pointer name target level) = name
generated_by (null_pointer name) = name

-- Name equivalence, but for arrays and pointers.
unfoldable pub type_info_equal : TypeInfo → TypeInfo → Bool
type_info_equal (array a s n) (array b t m) = n == m && type_info_equal s t
type_info_equal (pointer a s n) (pointer b t m) = n == m && type_info_equal s t
type_info_equal (pointer a s n) (null_pointer b) = true
type_info_equal (null_pointer a) (pointer b t m) = true
type_info_equal (null_pointer a) (null_pointer b) = true
type_info_equal (integer a _ _) (integer b _ _) = bytes_eq a b
type_info_equal (boolean a) (boolean b) = bytes_eq a b
type_info_equal (struct a _) (struct b _) = bytes_eq a b
type_info_equal (enum a) (enum b) = bytes_eq a b
type_info_equal (func a) (func b) = bytes_eq a b
type_info_equal _ _ = false

-- The size on u32.
unfoldable pub type_info_bit_size : TypeInfo → ℕ
type_info_bit_size (array name element n) = n * type_info_bit_size element % 2 ^ 32
type_info_bit_size (integer name bits signed) = bits
type_info_bit_size (struct name bits) = bits
type_info_bit_size (enum name) = 4
type_info_bit_size (boolean name) = 4
type_info_bit_size (pointer name target level) = 8
type_info_bit_size (null_pointer name) = 8
type_info_bit_size (func name) = 8

pub data SymbolKind : Type 0 where
  symbol_type symbol_func symbol_global_var symbol_local_var symbol_param : SymbolKind
  symbol_enum_member symbol_null_ptr : SymbolKind

-- A symbol without its defining node and its own table.
pub record Symbol : Type 0 where
  pub kind : SymbolKind
  pub seq_no : ℕ
  pub name : List ℕ
  pub type_info : Option TypeInfo
