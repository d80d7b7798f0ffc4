-- ===== src/Florists/Shop/Progress.antt =====
-- The shop never gets stuck before every florist has closed, and it comes to that point.
use cse344_assignments.Base.{
  ℕ, zero, suc, ◌+◌, ◌-◌, ◌*◌, ◌≤◌, ◌<◌, ◌≡◌, refl, ap, ◌∙◌, subst, ◌⊎◌, inl, inr, true, some, List,
  [], ◌∷◌, length, length-set, set, length-replicate, get_elem?, get_elem?-get_or, get_or,
  if◌then◌else◌, Bool-cases, dec_lt, tally, tally-set, arith,
}
use cse344_assignments.Server.Queue.{create_queue, int_max}
use cse344_assignments.Server.Queue.Inv.{IsQueue, dequeue_front, is_empty_lem}
use cse344_assignments.Florists.Queue.{enqueue_size, dequeue_size}
use cse344_assignments.Florists.Shop.{
  Pc, waiting, asleep, delivering, closed, Worker, wake, broadcast, Shop, assign_florists, Step,
  request, finish, sleep, take, deliver, close, Reach, start, later,
}
use cse344_assignments.Florists.Shop.Duty.{room}
use cse344_assignments.Florists.Shop.Wakeups.{length-broadcast, AllRest, Reach-AllRest}
use cse344_assignments.Florists.Shop.Sales.{Reach-IsShop, request_fits}

-- The supervisor is done and every florist has closed.
abbrev pub IsOver : Shop → Type 0
IsOver s =
    (s.finished ≡ true) × ((k : ℕ) (w : Worker) → get_elem? s.florists k ≡ some w → w.pc ≡ closed)

-- The steps that a florist still makes at least.
unfoldable pub load : Pc → ℕ
load waiting = 2
load asleep = 1
load (delivering client) = 3
load closed = 0

unfoldable pub weight : Worker → ℕ
weight w = 2 * w.queue.size + load w.pc

load-waiting : {p : Pc} → p ≡ waiting → load p ≡ 2
unfolding load
load-waiting e = ap load e

load-delivering : {p : Pc} {client : ℕ} → p ≡ delivering client → load p ≡ 3
unfolding load
load-delivering e = ap load e

-- A broadcast wakes each florist at most once.
load-wake : (p : Pc) → load (wake p) ≤ load p + 1
unfolding load wake
load-wake waiting = omega arith
load-wake asleep = omega arith
load-wake (delivering client) = omega arith
load-wake closed = omega arith

tally-broadcast : (ws : List Worker) → tally weight (broadcast ws) ≤ tally weight ws + length ws
unfolding broadcast weight tally
tally-broadcast [] = omega arith
tally-broadcast (w ∷ ws) = omega (arith, load-wake w.pc, tally-broadcast ws)

-- Whether a florist is before its lock, asleep, with a client or gone.
Pc-cases :
    (p : Pc) → (p ≡ waiting) ⊎ ((p ≡ asleep) ⊎ (((c : ℕ) × (p ≡ delivering c)) ⊎ (p ≡ closed)))
Pc-cases waiting = inl refl
Pc-cases asleep = inr (inl refl)
Pc-cases (delivering c) = inr (inr (inl (c, refl)))
Pc-cases closed = inr (inr (inr refl))

-- A florist that has not closed, if there is one.
find_open :
    (ws : List Worker)
    → ((k : ℕ) (w : Worker) → get_elem? ws k ≡ some w → w.pc ≡ closed)
      ⊎ ((k : ℕ) × (w : Worker) × (get_elem? ws k ≡ some w)
          × ((w.pc ≡ waiting) ⊎ ((w.pc ≡ asleep) ⊎ ((c : ℕ) × (w.pc ≡ delivering c)))))
find_open [] = inl (λ k w at. absurd (ground arith))
find_open (u ∷ ws) = elim (Pc-cases u.pc) [
  | inl here ↦ inr (0, u, refl, inl here)
  | inr (inl rests) ↦ inr (0, u, refl, inr (inl rests))
  | inr (inr (inl away)) ↦ inr (0, u, refl, inr (inr away))
  | inr (inr (inr gone)) ↦ elim (find_open ws) [
    | inl all ↦ inl (λ k w at. both gone all k w at)
    | inr (k, w, at, how) ↦ inr (suc k, w, at, how)
  ]
]
  where
    both :
        u.pc ≡ closed
        → ((k : ℕ) (w : Worker) → get_elem? ws k ≡ some w → w.pc ≡ closed)
        → (k : ℕ) (w : Worker) → get_elem? (u ∷ ws) k ≡ some w
        → w.pc ≡ closed
    both gone all zero w at =
        let same : u ≡ w = ground arith in subst (λ w. w.pc ≡ closed) same gone
    both gone all (suc k) w at = all k w at

-- The steps that a broadcast after each of `n` requests and at the end makes at most.
unfoldable pub rounds : ℕ → ℕ → ℕ
rounds count zero = 0
rounds count (suc n) = count + 3 + rounds count n

rounds-next :
    (count clients next : ℕ)
    → next < clients
    → rounds count (clients - next) ≡ count + 3 + rounds count (clients - (next + 1))
unfolding rounds
rounds-next count clients next lt =
    let one : clients - next ≡ suc (clients - (next + 1)) = omega arith in ap (rounds count) one

module _ (clients : ℕ) (chosen : ℕ → ℕ) where
  -- The steps that are left at most.
  unfoldable pub measure : ℕ → Shop → ℕ
  unfolding rounds weight
  measure count s =
      rounds count (clients - s.next)
      + (if s.finished then 0 else count + 1)
      + tally weight s.florists

  module _ (pos : 0 < clients) (small : clients ≤ int_max) (count : ℕ) where
    length-florists : {s : Shop} → Reach clients chosen count s → length s.florists ≡ count
    length-florists start = unfold assign_florists in (length-replicate count _)
    length-florists (later r (request {w = w} {q} lt at put)) =
        length-broadcast _ ∙ length-set _ _ _ ∙ length-florists r
    length-florists (later r (finish all not_yet)) = length-broadcast _ ∙ length-florists r
    length-florists (later r (sleep k at here none_left still_open)) =
        length-set _ _ _ ∙ length-florists r
    length-florists (later r (take k at here got)) = length-set _ _ _ ∙ length-florists r
    length-florists (later r (deliver k at here)) = length-set _ _ _ ∙ length-florists r
    length-florists (later r (close k at here end none_left)) = length-set _ _ _ ∙ length-florists r

    -- A thread that can make a step.
    shop_moves :
        (s : Shop)
        → ((c : ℕ) → c < clients → chosen c < count)
        → Reach clients chosen count s
        → IsOver s ⊎ ((t : Shop) × Step clients chosen s t)
    shop_moves s served r = elim (dec_lt s.next clients) [
      | yes lt ↦
          let idle : Worker = record { queue = create_queue 0; pc = closed; total_sale = 0 } in
          let w = get_or s.florists (chosen s.next) idle in
          let at : get_elem? s.florists (chosen s.next) ≡ some w =
            get_elem?-get_or s.florists (chosen s.next) idle
              (omega (arith, served s.next lt, length-florists r)) in
          let (q, put) = request_fits chosen clients pos small s (chosen s.next) w r lt at in
          inr (_, request lt at put)
      | no past ↦
          let v = Reach-IsShop chosen clients pos small r in
          let all : s.next ≡ clients = omega (arith, v.bound) in
          elim (Bool-cases s.finished) [
            | inr not_yet ↦ inr (_, finish all not_yet)
            | inl end ↦ elim (find_open s.florists) [
              | inl gone ↦ inl (end, gone)
              | inr (k, w, at, inr (inr (c, here))) ↦ inr (_, deliver k at here)
              | inr (k, w, at, inr (inl rests)) ↦
                  let idle = (Reach-AllRest r k w at rests).0 in absurd (cc (idle, end))
              | inr (k, w, at, inl here) ↦
                  let h = v.workers k w at in inr (waiting_moves s k w at here end h.items h.holds)
            ]
          ]
    ]
      where
        waiting_moves :
            (s : Shop) (k : ℕ) (w : Worker)
            → get_elem? s.florists k ≡ some w
            → w.pc ≡ waiting
            → s.finished ≡ true
            → (items : List ℕ) → IsQueue w.queue items
            → (t : Shop) × Step clients chosen s t
        waiting_moves s k w at here end [] holds =
            (_, close k at here end (is_empty_lem w.queue [] holds ∙ refl))
        waiting_moves s k w at here end (x ∷ xs) holds =
            let (q, e, _, _) = dequeue_front w.queue x xs holds in (_, take k at here e)

    -- When every client has a florist, in every reachable state of the shop, with at least one and
    -- at most 2^31 - 1 clients, either the supervisor is done and every florist has closed or some
    -- thread can make a step; and no wake-up is lost: a florist sleeps on the condition variable
    -- only while its queue is empty and the supervisor is not done.
    pub shop_progress :
        (s : Shop)
        → ((c : ℕ) → c < clients → chosen c < count)
        → Reach clients chosen count s
        → (IsOver s ⊎ ((t : Shop) × Step clients chosen s t)) × AllRest s
    shop_progress s served r = (shop_moves s served r, Reach-AllRest r)

    -- Every step from a reachable state of the shop, with at least one and at most 2^31 - 1
    -- clients, makes a measure smaller, so that the shop makes finitely many steps under any
    -- schedule.
    pub shop_ends :
        (s t : Shop)
        → Reach clients chosen count s
        → Step clients chosen s t
        → measure count t < measure count s
    unfolding measure
    shop_ends s t r (request {w = w} {q} lt at put) =
        let h = (Reach-IsShop chosen clients pos small r).workers (chosen s.next) w at in
        let more = enqueue_size w.queue h.items s.next h.holds (room chosen clients h lt) put in
        let w' : Worker = record w { queue = q } in
        let heavier : weight w' ≡ weight w + 2 = unfold weight load in (omega (arith, more)) in
        omega (
          arith,
          rounds-next count clients s.next lt,
          tally-broadcast (set s.florists (chosen s.next) w'),
          length-set s.florists (chosen s.next) w',
          length-florists r,
          tally-set weight s.florists (chosen s.next) w' at,
          heavier,
        )
    shop_ends s t r (finish all not_yet) =
        rw not_yet (omega (arith, tally-broadcast s.florists, length-florists r))
    shop_ends s t r (sleep k {w} at here none_left still_open) =
        let w' : Worker = record w { pc = asleep } in
        let lighter : weight w' + 1 ≡ weight w =
          unfold weight load in (omega (arith, load-waiting here)) in
        omega (arith, tally-set weight s.florists k w' at, lighter)
    shop_ends s t r (take k {w} {client} {q} at here got) =
        let h = (Reach-IsShop chosen clients pos small r).workers k w at in
        let fewer = dequeue_size w.queue h.items h.holds got in
        let w' : Worker = record w { queue = q; pc = delivering client } in
        let lighter : weight w' + 1 ≡ weight w =
          unfold weight load in (omega (arith, fewer, load-waiting here)) in
        omega (arith, tally-set weight s.florists k w' at, lighter)
    shop_ends s t r (deliver k {w} {client} at here) =
        let w' : Worker = record w { pc = waiting; total_sale = w.total_sale + 1 } in
        let lighter : weight w' + 1 ≡ weight w =
          unfold weight load in (omega (arith, load-delivering here)) in
        omega (arith, tally-set weight s.florists k w' at, lighter)
    shop_ends s t r (close k {w} at here end none_left) =
        let w' : Worker = record w { pc = closed } in
        let lighter : weight w' + 2 ≡ weight w =
          unfold weight load in (omega (arith, load-waiting here)) in
        omega (arith, tally-set weight s.florists k w' at, lighter)
