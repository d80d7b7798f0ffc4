-- ===== src/Server/Database/Exclusion.antt =====
-- Mutual exclusion in every reachable state of the readers and writers.
use cse344_assignments.Base.{ℕ, ◌≡◌, ◌≢◌, inl, refl, ap, some, get_elem?, arith}
use cse344_assignments.Server.Database.{
  Pc, idle, reading, writing, System, Step, run, Reach, start, later,
}
use cse344_assignments.Base.{tally-replicate, tally_one, tally_two}
use cse344_assignments.Server.Database.Counts.{
  Inv, Move-Inv, change, readers, writers, locking, unlocking, claims, claiming, releasing,
  entering, in_read_mutex, in_write_mutex,
}

Step-Inv : {s t : System} → Step s t → Inv s.shared s.threads → Inv t.shared t.threads
Step-Inv {s} (run i {p' = p'} e mv) v = Move-Inv mv (change s.threads i p' e) v

-- The counts are right in every reachable state.
pub Reach-Inv : {n : ℕ} {s : System} → Reach n s → Inv s.shared s.threads
Reach-Inv {n} start =
    let none = λ (w : Pc → ℕ) (e : w idle ≡ 0). tally-replicate w n e in
    record {
      read_mutex = omega (arith, none in_read_mutex refl);
      write_mutex = omega (arith, none in_write_mutex refl);
      read_count = omega (arith, none locking refl, none readers refl);
      write_count = omega (arith, none claiming refl, none claims refl);
      cache = inl (none readers refl, omega (arith, none writers refl, none unlocking refl));
      try = inl (none claims refl, omega (arith, none entering refl, none releasing refl));
    }
Reach-Inv (later r st) = Step-Inv st (Reach-Inv r)

module _ {n : ℕ} {s : System} (r : Reach n s) (i j : ℕ) {q : Pc} (ne : i ≢ j) where
  -- In every reachable state of any number of threads, while one thread writes the cache no other
  -- thread reads or writes it.
  pub writing-excludes :
      get_elem? s.threads i ≡ some writing
      → get_elem? s.threads j ≡ some q
      → (q ≢ reading) × (q ≢ writing)
  writing-excludes e f =
      let v = Reach-Inv r in
      let one = tally_one writers s.threads i e in
      let reads = tally_one readers s.threads j f in
      let both = tally_two writers s.threads i j ne e f in
      (
        λ is. let at : readers q ≡ 1 = ap readers is in omega (arith, v.cache, one, reads, at),
        λ is. let at : writers q ≡ 1 = ap writers is in omega (arith, v.cache, both, at),
      )
