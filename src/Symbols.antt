-- ===== src/Symbols.antt =====
-- include/symbol_table.hpp: symbols interned to 32-bit ids.
mod Laws
mod Tests
use matching_engine_cpp.Base.{
  ℕ, ◌%◌, ◌^◌, Option, none, some, List, [], ◌∷◌, ◌++◌, length, get_elem?, Text, find, insert,
  int_eq, text_eq_instance,
}

pub record SymbolTable : Type 0 where
  pub ids : List (Text × ℕ)
  pub names : List Text

abbrev pub empty_table : SymbolTable
empty_table = record { ids = []; names = [] }

-- The id is `static_cast<std::uint32_t>(names_.size())`; `emplace` adds a key that is not there.
unfoldable pub intern_new : SymbolTable → Text → ℕ × SymbolTable
unfolding insert
intern_new t symbol =
    let id = length t.names % 2 ^ 32 in
    (id, record { ids = insert symbol id t.ids; names = t.names ++ (symbol ∷ []) })

abbrev pub intern_at : SymbolTable → Text → Option ℕ → ℕ × SymbolTable
intern_at t symbol none = intern_new t symbol
intern_at t symbol (some id) = (id, t)

unfoldable pub intern : SymbolTable → Text → ℕ × SymbolTable
unfolding intern_new find
intern t symbol = intern_at t symbol (find symbol t.ids)

-- `lookup` returns false at `none`.
unfoldable pub lookup : SymbolTable → Text → Option ℕ
unfolding find
lookup t symbol = find symbol t.ids

-- `names_.at(id)`, which throws at `none`.
unfoldable pub name : SymbolTable → ℕ → Option Text
name t id = get_elem? t.names id

unfoldable pub size : SymbolTable → ℕ
size t = length t.names
