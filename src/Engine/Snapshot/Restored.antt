-- ===== src/Engine/Snapshot/Restored.antt =====
-- An engine that is loaded from a snapshot shows what the engine showed.
use matching_engine_cpp.Base.{
  ◌≡◌, refl, ap, ◌∙◌, some, ◌++◌, ℤ, Text, codes, text_eq, ok, int_eq, text_eq_instance,
}
use matching_engine_cpp.Types.{Side}
use matching_engine_cpp.Json.{as_int, object, int, set, find}
use matching_engine_cpp.Engine.{Engine}
use matching_engine_cpp.Engine.Invariant.{IsValid}
use matching_engine_cpp.Engine.Snapshot.{
  as_int, snapshot, books_json, load_snapshot, restore_root, cleared,
}
use matching_engine_cpp.Engine.Snapshot.Again.{seen_at}
use matching_engine_cpp.Engine.Snapshot.Books.{books_at, Distinct, restore_books-seen}
use matching_engine_cpp.Engine.Snapshot.Keys.{nothing_at, IsValid-SidesSorted, books_at-seen_at}

snapshot_fields :
    (e : Engine)
    → (find (codes "books") (snapshot e) ≡ some (object (books_json e.books)))
      × (find (codes "sequence") (snapshot e) ≡ some (int e.sequence))
unfolding find snapshot set text_eq codes
snapshot_fields e = (refl, refl)

-- Where an engine is in order and no symbol has two books, loading its snapshot into any engine
-- succeeds; the engine that results counts its events from the same number on, and at every symbol,
-- side and price it holds the same orders in the same order, each with the same participant and the
-- same quantity left.
pub load_snapshot-snapshot :
    (e before : Engine) (s : Text) (d : Side) (p : ℤ)
    → IsValid e
    → Distinct e.books
    → (e' : Engine) × (load_snapshot before (snapshot e) ≡ ok e')
      × (e'.sequence ≡ e.sequence)
      × (seen_at e'.books s d p ≡ seen_at e.books s d p)
unfolding load_snapshot restore_root as_int
load_snapshot-snapshot e before s d p v h =
    let (books, sequence) = snapshot_fields e in
    let start = cleared before (snapshot e) in
    let (e', ran, count, same) = restore_books-seen e.books start (IsValid-SidesSorted e v h) in
    (
      e',
      rw books ran,
      count ∙ rw sequence refl,
      same s d p
          ∙ ap (λ x. x ++ books_at e.books s d p) (nothing_at s d p)
          ∙ books_at-seen_at e.books s d p h,
    )
