-- ===== src/Florists/Shop/Wakeups.antt =====
-- No wake-up of a florist of homework-5/solution/source/program.c is lost.
use cse344_assignments.Base.{
  ℕ, zero, suc, ◌+◌, ◌≡◌, ◌≢◌, refl, sym, ap, ◌∙◌, subst, Bool, true, false, some, List, [], ◌∷◌,
  length, get_elem?, set, ℕ_discrete, get_elem?-set_at, get_elem?-replicate, get_elem?-set_ne,
  arith,
}
use cse344_assignments.Server.Queue.{is_empty}
use cse344_assignments.Florists.Shop.{
  Pc, waiting, asleep, delivering, closed, Worker, wake, woken, broadcast, Shop, assign_florists,
  Step, request, finish, sleep, take, deliver, close, Reach, start, later,
}

-- A florist after a broadcast, and before it.
pub broadcast_at :
    (ws : List Worker) (j : ℕ) (u : Worker)
    → get_elem? (broadcast ws) j ≡ some u
    → (v : Worker) × (get_elem? ws j ≡ some v) × (u ≡ woken v)
unfolding broadcast
broadcast_at [] j u e = absurd (ground arith)
broadcast_at (w ∷ ws) zero u e = (w, refl, ground arith)
broadcast_at (w ∷ ws) (suc j) u e = broadcast_at ws j u e

pub length-broadcast : (ws : List Worker) → length (broadcast ws) ≡ length ws
unfolding broadcast
length-broadcast [] = refl
length-broadcast (w ∷ ws) = ap suc (length-broadcast ws)

wake-ne-asleep : (p : Pc) → wake p ≢ asleep
unfolding wake
wake-ne-asleep waiting e = cc
wake-ne-asleep asleep e = cc
wake-ne-asleep (delivering client) e = cc
wake-ne-asleep closed e = cc

-- A florist sleeps only while it has nothing to do.
abbrev pub Rests : Bool → Worker → Type 0
Rests finished w = w.pc ≡ asleep → (finished ≡ false) × (is_empty w.queue ≡ true)

abbrev pub AllRest : Shop → Type 0
AllRest s = (k : ℕ) (w : Worker) → get_elem? s.florists k ≡ some w → Rests s.finished w

broadcast-Rests :
    (finished : Bool) (ws : List Worker) (k : ℕ) (w : Worker)
    → get_elem? (broadcast ws) k ≡ some w
    → Rests finished w
broadcast-Rests finished ws k w at e =
    let (v, _, same) = broadcast_at ws k w at in
    absurd (wake-ne-asleep v.pc (sym (ap (λ (w : Worker). w.pc) same) ∙ e))

-- A change of one florist.
set-Rests :
    (finished : Bool) (ws : List Worker) (k : ℕ) {w : Worker} (w' : Worker)
    → get_elem? ws k ≡ some w
    → ((j : ℕ) (u : Worker) → get_elem? ws j ≡ some u → Rests finished u)
    → Rests finished w'
    → (j : ℕ) (u : Worker) → get_elem? (set ws k w') j ≡ some u
    → Rests finished u
set-Rests finished ws k {w} w' at h h' j u e = elim (ℕ_discrete k j) [
  | yes same ↦
      let here : some w' ≡ some u =
        sym (get_elem?-set_at ws k w' at)
        ∙ subst (λ j. get_elem? (set ws k w') j ≡ some u) (sym same) e in
      let eq : w' ≡ u = ground arith in subst (Rests finished) eq h'
  | no other ↦ h j u (sym (get_elem?-set_ne ws w' other) ∙ e)
]

module _ {clients : ℕ} {chosen : ℕ → ℕ} where
  Step-AllRest : {s t : Shop} → Step clients chosen s t → AllRest s → AllRest t
  Step-AllRest {s} (request {w = w} {q} lt at put) h =
      broadcast-Rests s.finished (set s.florists (chosen s.next) (record w { queue = q }))
  Step-AllRest {s} (finish all not_yet) h = broadcast-Rests true s.florists
  Step-AllRest {s} (sleep k {w} at here none_left still_open) h =
      set-Rests s.finished s.florists k _ at h (λ e. (still_open, none_left))
  Step-AllRest {s} (take k {w} {client} {q} at here got) h =
      set-Rests s.finished s.florists k (record w { queue = q; pc = delivering client }) at h
        (λ e. absurd (away client e))
    where
      away : (client : ℕ) → delivering client ≢ asleep
      away client e = cc
  Step-AllRest {s} (deliver k {w} at here) h =
      set-Rests s.finished s.florists k (record w { pc = waiting; total_sale = w.total_sale + 1 })
        at h (λ e. absurd (awake e))
    where
      awake : waiting ≢ asleep
      awake e = cc
  Step-AllRest {s} (close k {w} at here end none_left) h =
      set-Rests s.finished s.florists k (record w { pc = closed }) at h (λ e. absurd (away e))
    where
      away : closed ≢ asleep
      away e = cc

  pub Reach-AllRest : {count : ℕ} {s : Shop} → Reach clients chosen count s → AllRest s
  Reach-AllRest {count} start =
      unfold assign_florists in
      (λ k w at. subst (Rests false) (get_elem?-replicate count k _ at) (λ e. absurd (awake e)))
    where
      awake : waiting ≢ asleep
      awake e = cc
  Reach-AllRest (later r st) = Step-AllRest st (Reach-AllRest r)
