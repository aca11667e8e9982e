-- ===== src/Entry/Laws.antt =====
-- The discriminants of crates/flushdb-types/src/entry_type.rs.
use flushdb.Base.{ℕ, ◌≡◌, refl, arith}
use flushdb.Error.{ok}
use flushdb.Entry.{EntryType, put, delete, range_delete, from_u8, as_u8}

-- A stored discriminant reads back as the entry type that it was written for.
pub from_u8-as_u8 : (t : EntryType) → from_u8 (as_u8 t) ≡ ok t
unfolding from_u8 as_u8
from_u8-as_u8 put = refl
from_u8-as_u8 delete = refl
from_u8-as_u8 range_delete = refl

-- A discriminant that is accepted is the one that the entry type writes.
pub as_u8-from_u8 : (v : ℕ) {t : EntryType} → from_u8 v ≡ ok t → as_u8 t ≡ v
unfolding from_u8 as_u8
as_u8-from_u8 v h = ground arith
