-- ===== src/HashMap.antt =====
-- The hash map of base/nicc.h, a copy of a library, which the symbol tables and the bytecode compiler use.
use metagen.Base.{ℕ, ◌≡◌, List, if◌then◌else◌, bytes_eq}

-- From names to pointers: a missing name gives NULL.
pub record StrMap : Type 1 where
  pub Map : Type 0
  pub init : Map
  pub get : Map → List ℕ → ℕ
  pub put : Map → List ℕ → ℕ → Map
  pub get-init : (k : List ℕ) → get init k ≡ 0
  pub get-put :
      (m : Map) (k j : List ℕ) (v : ℕ) → get (put m k v) j ≡ (if bytes_eq k j then v else get m j)
