-- ===== src/Recovery/Moved.antt =====
-- src/recovery.cpp: the move operations of a store and its destructor, over the program's stores,
-- each at a place of its own, and the files of the log paths. What a move leaves of a string is an
-- argument.
use matching_engine_cpp.Base.{
  ℕ, ◌≡◌, refl, sym, ap, subst, ◌∙◌, ◌≢◌, inl, inr, true, false, List, arith, ◌==◌, if◌then◌else◌,
  Bool-cases, Text, text_eq, text_eq_iff, text_eq_refl,
}
use matching_engine_cpp.Json.{Json}
use matching_engine_cpp.Recovery.{Disk, WalStore, contents, flush, close}
use matching_engine_cpp.Recovery.Replayed.{Holds, flush-Holds, log_text}

abbrev pub put_store : ℕ → WalStore → (ℕ → WalStore) → ℕ → WalStore
put_store i store stores n = if n == i then store else stores n

abbrev pub put_disk : Text → Disk → (Text → Disk) → Text → Disk
put_disk path disk disks at_path = if text_eq at_path path then disk else disks at_path

-- `close()` of the store at a place, which is also its destructor.
unfoldable pub close_at : ℕ → (ℕ → WalStore) → (Text → Disk) → (ℕ → WalStore) × (Text → Disk)
unfolding close text_eq
close_at i stores disks =
    let path = (stores i).wal_path in
    let (store, disk) = close (stores i) (disks path) in
    (put_store i store stores, put_disk path disk disks)

module _ (moved_text : Text → Text) where
  -- What is left of the store that another was moved out of.
  abbrev pub moved_from : WalStore → WalStore
  moved_from other = record other {
    wal_path = moved_text other.wal_path;
    snapshot_path = moved_text other.snapshot_path;
    is_open = false;
    pending = moved_text other.pending;
    batch_count = 0;
  }

  -- The new store, and what is left of the other.
  unfoldable pub move_construct : WalStore → WalStore × WalStore
  move_construct other = (
    record {
      wal_path = other.wal_path;
      snapshot_path = other.snapshot_path;
      ack_policy = other.ack_policy;
      is_open = other.is_open;
      pending = other.pending;
      batch_count = other.batch_count;
    },
    moved_from other,
  )

  -- The store at the place `this` is assigned the one at the place `other`.
  unfoldable pub move_assign :
      ℕ → ℕ → (ℕ → WalStore) → (Text → Disk) → (ℕ → WalStore) × (Text → Disk)
  unfolding close_at
  move_assign this other stores disks =
      let (stores', disks') = close_at this stores disks in
      let taken = record (stores' this) {
        wal_path = (stores' other).wal_path;
        snapshot_path = (stores' other).snapshot_path;
        ack_policy = (stores' other).ack_policy;
        is_open = (stores' other).is_open;
        pending = (stores' other).pending;
        batch_count = (stores' other).batch_count;
      } in
      if this == other
      then (stores, disks)
      else (put_store other (moved_from (stores' other)) (put_store this taken stores'), disks')

==_differ : (a b : ℕ) → a ≢ b → (a == b) ≡ false
==_differ a b differ = ground (arith, differ)

==_same : (a : ℕ) → (a == a) ≡ true
==_same a = ground arith

text_eq_differ : (s t : Text) → s ≢ t → text_eq s t ≡ false
text_eq_differ s t differ = elim (Bool-cases (text_eq s t)) [
  | inl same ↦ absurd (differ ((text_eq_iff s t).0 same))
  | inr other ↦ other
]

-- The files of a store that is closed, and those of another path.
close_at-disks :
    (i : ℕ) (stores : ℕ → WalStore) (disks : Text → Disk) (path : Text)
    → (stores i).wal_path ≢ path
    → ((close_at i stores disks).1 (stores i).wal_path
        ≡ (close (stores i) (disks (stores i).wal_path)).1)
      × ((close_at i stores disks).1 path ≡ disks path)
unfolding close_at
close_at-disks i stores disks path differ =
    let same : text_eq (stores i).wal_path (stores i).wal_path ≡ true =
      text_eq_refl (stores i).wal_path in
    let other : text_eq path (stores i).wal_path ≡ false =
      text_eq_differ path (stores i).wal_path (λ e. differ (sym e)) in
    (rw same refl, rw other refl)

-- The destructor of a store that has no file.
close_at_closed :
    (i : ℕ) (stores : ℕ → WalStore) (disks : Text → Disk)
    → (stores i).is_open ≡ false
    → (path : Text) → (close_at i stores disks).1 path ≡ disks path
unfolding close_at close flush
close_at_closed i stores disks closed path = elim (Bool-cases (text_eq path (stores i).wal_path)) [
  | inr other ↦ rw other refl
  | inl same ↦
      let e : path ≡ (stores i).wal_path = (text_eq_iff path (stores i).wal_path).0 same in
      rw (same, closed) (ap disks (sym e))
]

module _ (moved_text : Text → Text) where
  move_assign_self :
      (this : ℕ) (stores : ℕ → WalStore) (disks : Text → Disk)
      → move_assign moved_text this this stores disks ≡ (stores, disks)
  unfolding move_assign
  move_assign_self this stores disks = rw (==_same this) refl

  move_assign_lem :
      (this other : ℕ) (stores : ℕ → WalStore) (disks : Text → Disk)
      → this ≢ other
      → let (stores', disks') = move_assign moved_text this other stores disks in
        (stores' this ≡ stores other)
        × (stores' other ≡ moved_from moved_text (stores other))
        × (disks' ≡ (close_at this stores disks).1)
  unfolding move_assign close_at
  move_assign_lem this other stores disks differ =
      let e1 : (this == other) ≡ false = ==_differ this other differ in
      let e2 : (other == this) ≡ false = ==_differ other this (λ e. differ (sym e)) in
      let e3 : (this == this) ≡ true = ==_same this in
      let e4 : (other == other) ≡ true = ==_same other in rw (e1, e2, e3, e4, e1) (refl, refl, refl)

  -- An open store that holds records is assigned another one whose log has another path and holds
  -- records too. Then all the records of the first are in the file of its former path, the store
  -- has the other's paths and policy and holds the other's records in the file of its new path, and
  -- the destructor of what the other has become changes no file. A store that is assigned itself is
  -- left as it is, and so are the files.
  pub move_assign-Holds :
      (js ks : List Json) (this other : ℕ) (stores : ℕ → WalStore) (disks : Text → Disk)
      → this ≢ other
      → (stores this).wal_path ≢ (stores other).wal_path
      → Holds js (stores this) (disks (stores this).wal_path)
      → Holds ks (stores other) (disks (stores other).wal_path)
      → let (stores', disks') = move_assign moved_text this other stores disks in
        (contents (disks' (stores this).wal_path).wal ≡ log_text js)
        × ((stores' this).wal_path ≡ (stores other).wal_path)
        × ((stores' this).snapshot_path ≡ (stores other).snapshot_path)
        × ((stores' this).ack_policy ≡ (stores other).ack_policy)
        × Holds ks (stores' this) (disks' (stores' this).wal_path)
        × ((path : Text) → (close_at other stores' disks').1 path ≡ disks' path)
        × (move_assign moved_text this this stores disks ≡ (stores, disks))
  unfolding close flush
  move_assign-Holds js ks this other stores disks differ paths h k =
      let (stores', disks') = move_assign moved_text this other stores disks in
      let (taken, left, files) = move_assign_lem this other stores disks differ in
      let (closed, kept) = close_at-disks this stores disks (stores other).wal_path paths in
      let first : contents (disks' (stores this).wal_path).wal ≡ log_text js =
        ap (λ f. contents (f (stores this).wal_path).wal) files
        ∙ ap (λ d. contents d.wal) closed
        ∙ (flush-Holds js (stores this) (disks (stores this).wal_path) h).1 in
      let now : Holds ks (stores' this) (disks' (stores' this).wal_path) =
        subst (λ s. Holds ks s (disks' s.wal_path)) (sym taken)
          (subst (λ d. Holds ks (stores other) d)
            (sym (ap (λ f. f (stores other).wal_path) files ∙ kept)) k) in
      (
        first,
        ap (λ s. s.wal_path) taken,
        ap (λ s. s.snapshot_path) taken,
        ap (λ s. s.ack_policy) taken,
        now,
        close_at_closed other stores' disks' (ap (λ s. s.is_open) left),
        move_assign_self this stores disks,
      )
