-- ===== src/Symbols/Tests.antt =====
-- Instances of the theorem on the symbol table.
use matching_engine_cpp.Base.{[], ◌∷◌, arith}
use matching_engine_cpp.Symbols.{empty_table, intern}
use matching_engine_cpp.Symbols.Laws.{Interned, empty_table-IsValid, intern_lem}

intern_lem_example : Interned empty_table (65 ∷ []) (intern empty_table (65 ∷ []))
intern_lem_example = intern_lem empty_table (65 ∷ []) empty_table-IsValid (omega arith)
