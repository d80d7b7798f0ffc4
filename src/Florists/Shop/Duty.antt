-- ===== src/Florists/Shop/Duty.antt =====
-- The requests of one florist: those sold, in hand and in its queue, through each step.
use cse344_assignments.Base.{
  ℕ, zero, suc, ◌+◌, ◌≤◌, ◌<◌, ◌≡◌, ◌≢◌, refl, sym, ap, ◌∙◌, subst, Bool, true, List, [], ◌∷◌, ◌++◌,
  length, length-append, ◌==◌, if◌then◌else◌, ok, ok-injective, arith,
}
use cse344_assignments.Server.Queue.{Queue, is_empty, dequeue}
use cse344_assignments.Server.Queue.Inv.{IsQueue, dequeue_front, dequeue_empty, is_empty_lem}
use cse344_assignments.Florists.Queue.{enqueue, enqueue_lem}
use cse344_assignments.Florists.Shop.{Pc, waiting, asleep, delivering, closed, Worker, wake, woken}

-- The request in hand.
unfoldable pub hand : Pc → ℕ
hand waiting = 0
hand asleep = 0
hand (delivering client) = 1
hand closed = 0

pub hand-waiting : {p : Pc} → p ≡ waiting → hand p ≡ 0
unfolding hand
hand-waiting e = ap hand e

hand-delivering : {p : Pc} {client : ℕ} → p ≡ delivering client → hand p ≡ 1
unfolding hand
hand-delivering e = ap hand e

pub hand-wake : (p : Pc) → hand (wake p) ≡ hand p
unfolding hand wake
hand-wake waiting = refl
hand-wake asleep = refl
hand-wake (delivering client) = refl
hand-wake closed = refl

-- A broadcast closes no florist.
wake-closed : (p : Pc) → wake p ≡ closed → p ≡ closed
unfolding wake
wake-closed waiting e = cc
wake-closed asleep e = cc
wake-closed (delivering client) e = cc
wake-closed closed e = refl

asleep-ne-closed : asleep ≢ closed
asleep-ne-closed e = cc

pub waiting-ne-closed : waiting ≢ closed
waiting-ne-closed e = cc

delivering-ne-closed : (client : ℕ) → delivering client ≢ closed
delivering-ne-closed client e = cc

module _ (chosen : ℕ → ℕ) where
  -- How many of the first `n` requests are for the florist `k`.
  unfoldable pub assigned : ℕ → ℕ → ℕ
  assigned k zero = 0
  assigned k (suc n) = (if chosen n == k then 1 else 0) + assigned k n

  assigned_le : (k n : ℕ) → assigned k n ≤ n
  unfolding assigned
  assigned_le k zero = omega arith
  assigned_le k (suc n) = ground (arith, assigned_le k n)

  module _ (clients : ℕ) where
    pub record IsWorker (next : ℕ) (finished : Bool) (k : ℕ) (w : Worker) : Type 0 where
      pub items : List ℕ
      pub holds : IsQueue w.queue items
      pub cap : w.queue.cap ≡ clients
      pub sum : w.total_sale + hand w.pc + length items ≡ assigned k next
      pub gone : w.pc ≡ closed → (finished ≡ true) × (length items ≡ 0)

    module _ {next : ℕ} {finished : Bool} {k : ℕ} {w : Worker}
        (h : IsWorker next finished k w) where
      -- A request for another florist leaves a florist as it is.
      pub passed_on : chosen next ≢ k → IsWorker (next + 1) finished k w
      passed_on other = record {
        items = h.items;
        holds = h.holds;
        cap = h.cap;
        sum = h.sum ∙ unfold assigned in (ground (arith, other));
        gone = h.gone;
      }

      -- Before the last request the queue has room.
      pub room : next < clients → length h.items < w.queue.cap
      room lt = omega (arith, h.sum, h.cap, assigned_le k next)

      -- A request for the florist goes into its queue.
      pub given :
          {q : Queue ℕ}
          → chosen next ≡ k
          → (finished ≢ true)
          → next < clients
          → enqueue w.queue next ≡ ok q
          → IsWorker (next + 1) finished k (record w { queue = q })
      given mine open_ lt put =
          let (q', e, holds, cap) = enqueue_lem w.queue h.items next h.holds (room lt) in
          let same = ok-injective (sym e ∙ put) in
          record {
            items = h.items ++ next ∷ [];
            holds = subst (λ q. IsQueue q (h.items ++ next ∷ [])) same holds;
            cap = ap (λ q. q.cap) (sym same) ∙ cap ∙ h.cap;
            sum =
                unfold assigned in (ground (arith, h.sum, length-append h.items (next ∷ []), mine));
            gone = λ e. absurd (open_ (h.gone e).0);
          }

      -- The oldest request of the queue comes to hand.
      pub took :
          {client : ℕ} {q : Queue ℕ}
          → w.pc ≡ waiting
          → dequeue w.queue ≡ ok (client, q)
          → IsWorker next finished k (record w { queue = q; pc = delivering client })
      took {client} {q} here got = go h.items h.holds h.sum
        where
          go :
              (items : List ℕ)
              → IsQueue w.queue items
              → w.total_sale + hand w.pc + length items ≡ assigned k next
              → IsWorker next finished k (record w { queue = q; pc = delivering client })
          go [] holds sum = absurd (cc (got, dequeue_empty w.queue holds))
          go (x ∷ xs) holds sum =
              let (q', e, holds', cap) = dequeue_front w.queue x xs holds in
              let same = ok-injective (sym e ∙ got) in
              record {
                items = xs;
                holds = subst (λ (c : ℕ × Queue ℕ). IsQueue c.1 xs) same holds';
                cap = ap (λ (c : ℕ × Queue ℕ). c.1.cap) (sym same) ∙ cap ∙ h.cap;
                sum = unfold hand in (omega (arith, sum, hand-waiting here));
                gone = λ e. absurd (delivering-ne-closed client e);
              }

      pub delivered :
          {client : ℕ}
          → w.pc ≡ delivering client
          → IsWorker next finished k (record w { pc = waiting; total_sale = w.total_sale + 1 })
      delivered here = record {
        items = h.items;
        holds = h.holds;
        cap = h.cap;
        sum = unfold hand in (omega (arith, h.sum, hand-delivering here));
        gone = λ e. absurd (waiting-ne-closed e);
      }

      pub roused : IsWorker next finished k (woken w)
      roused = record {
        items = h.items;
        holds = h.holds;
        cap = h.cap;
        sum = omega (arith, h.sum, hand-wake w.pc);
        gone = λ e. h.gone (wake-closed w.pc e);
      }

      pub dozed : w.pc ≡ waiting → IsWorker next finished k (record w { pc = asleep })
      dozed here = record {
        items = h.items;
        holds = h.holds;
        cap = h.cap;
        sum = unfold hand in (omega (arith, h.sum, hand-waiting here));
        gone = λ e. absurd (asleep-ne-closed e);
      }

      pub gone_home :
          w.pc ≡ waiting
          → finished ≡ true
          → is_empty w.queue ≡ true
          → IsWorker next finished k (record w { pc = closed })
      gone_home here end none_left = record {
        items = h.items;
        holds = h.holds;
        cap = h.cap;
        sum = unfold hand in (omega (arith, h.sum, hand-waiting here));
        gone = λ e. (end, let i = is_empty_lem w.queue h.items h.holds in ground arith);
      }
