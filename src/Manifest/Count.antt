-- ===== src/Manifest/Count.antt =====
-- The numbers of tables, the sequence number and the update of a flush.
use flushdb.Base.{
  ℕ, ◌+◌, ◌%◌, ◌^◌, ◌≤◌, ◌≡◌, refl, sym, ap, Option, none, some, List, [], ◌∷◌, ◌++◌, arith, length,
  length-append, ltb, Bool-cases, inl, inr,
}
use flushdb.Base.Bytes.{Bytes}
use flushdb.Error.{ok, ok_inj, >>=-eq-ok}
use flushdb.Manifest.{
  Level, l0, l1, l2, l3, SstableMeta, Levels, Manifest, ManifestUpdate, set_level, remove_all,
  insert_sorted, sort_by_min_key, add_one, add_all, next_sequence, apply, total_sstable_count,
}
use flushdb.Manifest.Apply.{length-remove_id, remove_all_step, remove_all_nil}

abbrev total_of : Levels → ℕ
total_of levels = length (levels l0) + length (levels l1) + length (levels l2) + length (levels l3)

total-set_level :
    (level : Level) (ssts : List SstableMeta) (levels : Levels)
    → total_of (set_level level ssts levels) + length (levels level) ≡ total_of levels + length ssts
total-set_level l0 ssts levels = omega arith
total-set_level l1 ssts levels = omega arith
total-set_level l2 ssts levels = omega arith
total-set_level l3 ssts levels = omega arith

total-remove_all :
    (removes : List (Level × Bytes)) (levels result : Levels)
    → remove_all removes levels ≡ ok result
    → total_of result + length removes ≡ total_of levels
total-remove_all [] levels result e = omega (arith, ap total_of (remove_all_nil levels result e))
total-remove_all ((level, id) ∷ later) levels result e =
    let (ssts, z, e') = remove_all_step level id later levels result e in
    omega (
      arith,
      total-remove_all later (set_level level ssts levels) result e',
      total-set_level level ssts levels,
      length-remove_id id (levels level) ssts z,
    )

length-insert :
    (x : SstableMeta) (xs : List SstableMeta) → length (insert_sorted x xs) ≡ length xs + 1
unfolding insert_sorted
length-insert x [] = omega arith
length-insert x (y ∷ ys) = ground (arith, length-insert x ys)

length-sort : (xs : List SstableMeta) → length (sort_by_min_key xs) ≡ length xs
unfolding sort_by_min_key
length-sort [] = refl
length-sort (x ∷ xs) = omega (arith, length-sort xs, length-insert x (sort_by_min_key xs))

length-add_one :
    (level : Level) (meta : SstableMeta) (xs : List SstableMeta)
    → length (add_one level meta xs) ≡ length xs + 1
unfolding add_one
length-add_one level meta xs =
    ground (arith, length-sort (xs ++ (meta ∷ [])), length-append xs (meta ∷ []))

total-add_all :
    (adds : List (Level × SstableMeta)) (levels : Levels)
    → total_of (add_all adds levels) ≡ total_of levels + length adds
unfolding add_all
total-add_all [] levels = omega arith
total-add_all ((level, meta) ∷ later) levels = omega (
  arith,
  total-add_all later (set_level level (add_one level meta (levels level)) levels),
  total-set_level level (add_one level meta (levels level)) levels,
  length-add_one level meta (levels level),
)

next_sequence_grows :
    (o : Option ℕ) (current seq : ℕ) → next_sequence o current ≡ ok seq → current ≤ seq
unfolding next_sequence
next_sequence_grows none current seq e = omega (arith, ok_inj e)
next_sequence_grows (some n) current seq e = elim (Bool-cases (ltb n current)) [
  | inl less ↦ absurd (ground (arith, less, e))
  | inr more ↦ ground (arith, more, e)
]

-- A successful update leaves as many tables as there were and as it adds, less those it removes;
-- the last flushed sequence number does not fall, the previous manifest is the one before, and the
-- identifier of the manifest is one higher, modulo 2 ^ 64.
pub apply-total :
    (u : ManifestUpdate) (now : ℕ) (current : Manifest) {result : Manifest}
    → apply u now current ≡ ok result
    → (total_sstable_count result + length u.remove_sstables
        ≡ total_sstable_count current + length u.add_sstables)
      × (current.last_flushed_sequence ≤ result.last_flushed_sequence)
      × (result.previous_manifest_id ≡ current.manifest_id)
      × (result.manifest_id ≡ (current.manifest_id + 1) % 2 ^ 64)
unfolding apply total_sstable_count
apply-total u now current {result} e =
    let (removed, r, e') = >>=-eq-ok (remove_all u.remove_sstables current.levels) _ e in
    let (seq, q, e'') =
      >>=-eq-ok (next_sequence u.new_last_flushed_sequence current.last_flushed_sequence) _ e' in
    let same = ok_inj e'' in
    (
      omega (
        arith,
        ap (λ (m : Manifest). total_of m.levels) same,
        total-remove_all u.remove_sstables current.levels removed r,
        total-add_all u.add_sstables removed,
      ),
      omega (
        arith,
        ap (λ (m : Manifest). m.last_flushed_sequence) same,
        next_sequence_grows u.new_last_flushed_sequence current.last_flushed_sequence seq q,
      ),
      sym (ap (λ (m : Manifest). m.previous_manifest_id) same),
      sym (ap (λ (m : Manifest). m.manifest_id) same),
    )
