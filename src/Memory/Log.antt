-- ===== src/Memory/Log.antt =====
-- The log of recent accesses.
use whypa.Base.{
  ℕ, ◌+◌, ◌-◌, ◌≤◌, ◌<◌, ◌≡◌, refl, ◌==◌, if◌then◌else◌, Bool, List, [], ◌∷◌, ◌++◌, length,
  length-append, arith,
}
use whypa.Memory.{MemoryManager, AccessEntry, remove_first, log_access, log_capacity}

remove_first-append :
    (xs : List AccessEntry) (e : AccessEntry)
    → 0 < length xs
    → remove_first (xs ++ (e ∷ [])) ≡ remove_first xs ++ (e ∷ [])
remove_first-append [] e h = elim h [ ]
remove_first-append (x ∷ xs) e h = refl

length-remove_first : (xs : List AccessEntry) → length (remove_first xs) ≡ length xs - 1
length-remove_first [] = omega arith
length-remove_first (x ∷ xs) = omega arith

-- A log of at most 1000 entries stays so. The access logged last is its last entry, and of the
-- earlier ones only the oldest is dropped, and only from a full log.
pub log_access_bounded :
    (mem : MemoryManager) (gpa : ℕ) (is_write : Bool)
    → length mem.access_log ≤ log_capacity
    → let entry : AccessEntry = record {
      gpa = gpa;
      is_write = is_write;
      stamp = length mem.access_log;
    } in
      let log = (log_access mem gpa is_write).access_log in
      (length log ≤ log_capacity)
      × (log
          ≡ (if length mem.access_log == log_capacity
              then remove_first mem.access_log
              else mem.access_log)
            ++ (entry ∷ []))
unfolding log_access
log_access_bounded mem gpa is_write h =
    let entry : AccessEntry = record {
      gpa = gpa;
      is_write = is_write;
      stamp = length mem.access_log;
    } in
    let grown : length (mem.access_log ++ (entry ∷ [])) ≡ length mem.access_log + 1 =
      length-append mem.access_log (entry ∷ []) in
    (
      ground (arith, grown, length-remove_first (mem.access_log ++ (entry ∷ []))),
      ground (arith, grown, remove_first-append mem.access_log entry),
    )
