-- ===== src/Server/Database/Progress.antt =====
-- The readers and writers never block one another for good: some thread can always move.
use cse344_assignments.Base.{
  ℕ, ◌+◌, ◌-◌, ◌≤◌, ◌<◌, ◌≡◌, refl, some, List, [], ◌∷◌, get_elem?, set, arith, dec_lt, ℕ_discrete,
  length, length-set, length-replicate,
}
use cse344_assignments.Base.{tally, tally_find, tally_cover, tally_one}
use cse344_assignments.Server.Database.{
  Shared, Pc, idle, r_enter, r_count, r_lock, r_free_mutex, r_free_try, reading, r_uncount,
  r_unlock, r_leave, w_count, w_lock, w_free_mutex, w_enter, writing, w_done, w_uncount, w_unlock,
  w_leave, Move, System, Step, run, Reach, start, later, read_begin, read_mutex_in, count_first,
  count_more, lock_cache, read_mutex_out, read_try_out, read_end, uncount_last, uncount_more,
  unlock_cache, read_leave, writers_first, writers_more, lock_try, write_mutex_out, write_cache,
  write_end, write_again, writers_last, writers_left, unlock_try, write_leave,
}
use cse344_assignments.Server.Database.Counts.{
  Inv, readers, writers, locking, unlocking, claims, claiming, releasing, entering, in_read_mutex,
  in_write_mutex,
}
use cse344_assignments.Server.Database.Exclusion.{Reach-Inv}

-- The places where a thread waits for no one.
abbrev ready : Pc → ℕ
ready idle = 0
ready r_enter = 0
ready r_lock = 0
ready reading = 0
ready w_lock = 0
ready w_enter = 0
ready w_done = 0
ready _ = 1

abbrev at_r_enter : Pc → ℕ
at_r_enter r_enter = 1
at_r_enter _ = 0

abbrev at_reading : Pc → ℕ
at_reading reading = 1
at_reading _ = 0

abbrev at_w_enter : Pc → ℕ
at_w_enter w_enter = 1
at_w_enter _ = 0

abbrev at_w_done : Pc → ℕ
at_w_done w_done = 1
at_w_done _ = 0

-- A thread can move.
abbrev CanMove : Shared → Pc → Type 0
CanMove m p = (m' : Shared) × (p' : Pc) × Move m p m' p'

ready-CanMove : (m : Shared) (p : Pc) → 0 < ready p → CanMove m p
ready-CanMove m r_count h = elim (ℕ_discrete (m.read_count + 1) 1) [
  | yes e ↦ (_, _, count_first e)
  | no e ↦ (_, _, count_more e)
]
ready-CanMove m r_free_mutex h = (_, _, read_mutex_out)
ready-CanMove m r_free_try h = (_, _, read_try_out)
ready-CanMove m r_uncount h = elim (ℕ_discrete (m.read_count - 1) 0) [
  | yes e ↦ (_, _, uncount_last e)
  | no e ↦ (_, _, uncount_more e)
]
ready-CanMove m r_unlock h = (_, _, unlock_cache)
ready-CanMove m r_leave h = (_, _, read_leave)
ready-CanMove m w_count h = elim (ℕ_discrete (m.write_count + 1) 1) [
  | yes e ↦ (_, _, writers_first e)
  | no e ↦ (_, _, writers_more e)
]
ready-CanMove m w_free_mutex h = (_, _, write_mutex_out)
ready-CanMove m writing h = (_, _, write_end)
ready-CanMove m w_uncount h = elim (ℕ_discrete (m.write_count - 1) 0) [
  | yes e ↦ (_, _, writers_last e)
  | no e ↦ (_, _, writers_left e)
]
ready-CanMove m w_unlock h = (_, _, unlock_try)
ready-CanMove m w_leave h = (_, _, write_leave)
ready-CanMove m _ h = absurd (omega arith)

abbrev at_entry : Pc → ℕ
at_entry r_enter = 1
at_entry r_lock = 1
at_entry _ = 0

abbrev at_writer : Pc → ℕ
at_writer w_enter = 1
at_writer w_done = 1
at_writer _ = 0

module _ (m : Shared) where
  r_enter-CanMove : 0 < m.read_mutex → (p : Pc) → 0 < at_r_enter p → CanMove m p
  r_enter-CanMove free r_enter h = (_, _, read_mutex_in free)
  r_enter-CanMove free _ h = absurd (omega arith)

  r_lock-CanMove : 0 < m.cache_mutex → (p : Pc) → 0 < locking p → CanMove m p
  r_lock-CanMove free r_lock h = (_, _, lock_cache free)
  r_lock-CanMove free _ h = absurd (omega arith)

  reading-CanMove : 0 < m.read_mutex → (p : Pc) → 0 < at_reading p → CanMove m p
  reading-CanMove free reading h = (_, _, read_end free)
  reading-CanMove free _ h = absurd (omega arith)

  w_lock-CanMove : 0 < m.read_try → (p : Pc) → 0 < claiming p → CanMove m p
  w_lock-CanMove free w_lock h = (_, _, lock_try free)
  w_lock-CanMove free _ h = absurd (omega arith)

  w_enter-CanMove : 0 < m.cache_mutex → (p : Pc) → 0 < at_w_enter p → CanMove m p
  w_enter-CanMove free w_enter h = (_, _, write_cache free)
  w_enter-CanMove free _ h = absurd (omega arith)

  w_done-CanMove : 0 < m.write_mutex → (p : Pc) → 0 < at_w_done p → CanMove m p
  w_done-CanMove free w_done h = (_, _, write_again free)
  w_done-CanMove free _ h = absurd (omega arith)

  idle-CanMove :
      0 < m.read_try
      → (p : Pc)
      → ready p + locking p + at_r_enter p + claiming p + at_reading p + at_w_done p + at_w_enter p
        ≡ 0
      → CanMove m p
  idle-CanMove free idle h = (_, _, read_begin free)
  idle-CanMove free _ h = absurd (omega arith)

-- Some thread of the list can move.
abbrev SomeMove : Shared → List Pc → Type 0
SomeMove m ps = (i : ℕ) × (p : Pc) × (get_elem? ps i ≡ some p) × CanMove m p

some_move :
    (m : Shared) (ps : List Pc) (w : Pc → ℕ)
    → ((p : Pc) → 0 < w p → CanMove m p)
    → 0 < tally w ps
    → SomeMove m ps
some_move m ps w move h = let (i, p, e, lt) = tally_find w ps h in (i, p, e, move p lt)

-- The places that are counted twice, by the places where a thread may wait.
record Covers (ps : List Pc) : Type 0 where
  c1 : tally writers ps ≤ tally ready ps + tally ready ps
  c2 : tally unlocking ps ≤ tally ready ps + tally ready ps
  c3 : tally releasing ps ≤ tally ready ps + tally ready ps
  c4 : tally in_read_mutex ps ≤ tally ready ps + tally locking ps
  c5 : tally in_write_mutex ps ≤ tally ready ps + tally claiming ps
  c6 : tally at_entry ps ≤ tally at_r_enter ps + tally locking ps
  c7 : tally entering ps ≤ tally ready ps + tally at_entry ps
  c8 : tally readers ps ≤ tally ready ps + tally at_reading ps
  c9 : tally at_writer ps ≤ tally at_w_enter ps + tally at_w_done ps
  c10 : tally claims ps ≤ tally ready ps + tally at_writer ps

covers : (ps : List Pc) → Covers ps
covers ps = record {
  c1 = tally_cover writers ready ready ps (λ q. ground arith);
  c2 = tally_cover unlocking ready ready ps (λ q. ground arith);
  c3 = tally_cover releasing ready ready ps (λ q. ground arith);
  c4 = tally_cover in_read_mutex ready locking ps (λ q. ground arith);
  c5 = tally_cover in_write_mutex ready claiming ps (λ q. ground arith);
  c6 = tally_cover at_entry at_r_enter locking ps (λ q. ground arith);
  c7 = tally_cover entering ready at_entry ps (λ q. ground arith);
  c8 = tally_cover readers ready at_reading ps (λ q. ground arith);
  c9 = tally_cover at_writer at_w_enter at_w_done ps (λ q. ground arith);
  c10 = tally_cover claims ready at_writer ps (λ q. ground arith);
}

Inv-SomeMove : (m : Shared) (p : Pc) (ps : List Pc) → Inv m (p ∷ ps) → SomeMove m (p ∷ ps)
Inv-SomeMove m p rest v =
    let ps = p ∷ rest in
    let c = covers ps in
    elim (dec_lt 0 (tally ready ps)) [
      | yes h ↦ some_move m ps ready (ready-CanMove m) h
      | no h1 ↦ elim (dec_lt 0 (tally locking ps)) [
        | yes h ↦ some_move m ps locking (r_lock-CanMove m (omega (arith, c.c1, c.c2))) h
        | no h2 ↦ elim (dec_lt 0 (tally at_r_enter ps)) [
          | yes h ↦ some_move m ps at_r_enter (r_enter-CanMove m (omega (arith, c.c4))) h
          | no h3 ↦ elim (dec_lt 0 (tally claiming ps)) [
            | yes h ↦ some_move m ps claiming (w_lock-CanMove m (omega (arith, c.c3, c.c6, c.c7))) h
            | no h4 ↦ elim (dec_lt 0 (tally at_reading ps)) [
              | yes h ↦ some_move m ps at_reading (reading-CanMove m (omega (arith, c.c4))) h
              | no h5 ↦ elim (dec_lt 0 (tally at_w_done ps)) [
                | yes h ↦ some_move m ps at_w_done (w_done-CanMove m (omega (arith, c.c5))) h
                | no h6 ↦ elim (dec_lt 0 (tally at_w_enter ps)) [
                  | yes h ↦
                      some_move m ps at_w_enter
                        (w_enter-CanMove m (omega (arith, c.c1, c.c2, c.c8))) h
                  | no h7 ↦
                      let one = λ (w : Pc → ℕ). tally_one w ps 0 {p = p} refl in
                      (
                        0,
                        p,
                        refl,
                        idle-CanMove m (omega (arith, c.c3, c.c6, c.c7, c.c9, c.c10)) p (
                            omega (
                              arith,
                              one ready,
                              one locking,
                              one at_r_enter,
                              one claiming,
                              one at_reading,
                              one at_w_done,
                              one at_w_enter,
                            )),
                      )
                ]
              ]
            ]
          ]
        ]
      ]
    ]

length-threads : {n : ℕ} {s : System} → Reach n s → length s.threads ≡ n
length-threads {n} start = length-replicate n idle
length-threads (later r (run i {p' = p'} e mv)) = omega (arith, length-set _ i p', length-threads r)

-- In every reachable state of at least one thread some thread can make a step: the readers and
-- writers do not deadlock.
pub no_deadlock : (n : ℕ) (s : System) → 0 < n → Reach n s → (t : System) × Step s t
no_deadlock n s pos r = go s.threads (length-threads r) (Reach-Inv r) refl
  where
    go : (ps : List Pc) → length ps ≡ n → Inv s.shared ps → s.threads ≡ ps → (t : System) × Step s t
    go [] l v e = absurd (omega arith)
    go (p ∷ ps) l v e =
        let (i, q, at, move) = Inv-SomeMove s.shared p ps v in
        let (m', p', mv) = move in
        (record { shared = m'; threads = set s.threads i p' }, run i (rw e at) mv)
