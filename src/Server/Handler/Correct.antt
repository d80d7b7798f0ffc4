-- ===== src/Server/Handler/Correct.antt =====
-- Every answer of the server is the text of a shortest walk, or says that there is none.
use cse344_assignments.Base.{
  ℕ, ◌≤◌, ◌<◌, ◌≡◌, sym, ap, ◌∙◌, subst, ◌⊎◌, inl, inr, List, [], ◌∷◌, Option, none, some, ◌==◌,
  ◌&&◌, if◌then◌else◌, length, ok, err, ok-injective, >>=-eq-ok, out_of_bounds, All, All-append,
  arith, Bool-cases, Option-cases,
}
use mathlib.Core.List.{reverse, reverse-cons}
use cse344_assignments.Server.Queue.{Queue, int_max}
use cse344_assignments.Server.Graph.{Graph}
use cse344_assignments.Server.Graph.Laws.{IsGraph}
use cse344_assignments.Server.Cache.{Cache, get_cache, to_cache}
use cse344_assignments.Server.Cache.Laws.{get_cache-to_cache, get_cache-out_of_bounds}
use cse344_assignments.Server.Bfs.{bfs}
use cse344_assignments.Server.Bfs.Explore.{Walk, one, step}
use cse344_assignments.Server.Bfs.Trace.{IsEnd}
use cse344_assignments.Server.Bfs.Correct.{IsAnswer, bfs_correct}
use cse344_assignments.Server.Packet.{prepare_packet, no_path}
use cse344_assignments.Server.Packet.Fits.{
  render, prepare_packet_fits, prepare_packet_small, prepare_packet-none,
}
use cse344_assignments.Server.Handler.{calculate, respond}

texts : {a b : List ℕ} → ok (some a) ≡ ok (some b) → a ≡ b
texts h = ground arith

module _ (g : Graph) where
  -- The text of a right answer for the pair.
  abbrev pub IsReply : ℕ → ℕ → List ℕ → Type 0
  IsReply i j text =
      ((text ≡ no_path) × ((p : List ℕ) → Walk g i p → ¬ IsEnd j p))
      ⊎ ((p : List ℕ) × (text ≡ render (reverse p))
          × Walk g i p
          × IsEnd j p
          × ((p' : List ℕ) → Walk g i p' → IsEnd j p' → length p ≤ length p'))

  -- Every text in the cache is right.
  pub record IsSound (cache : Cache) : Type 0 where
    pub sized : length cache.list ≡ g.V
    pub right : (i j : ℕ) (text : List ℕ) → get_cache cache i j ≡ ok (some text) → IsReply i j text

  All-reverse : (p : List ℕ) → All (λ v. v < g.V) p → All (λ v. v < g.V) (reverse p)
  All-reverse [] h = tt
  All-reverse (v ∷ p) h =
      subst (All (λ v. v < g.V)) (sym (reverse-cons v p))
        (All-append _ (reverse p) (v ∷ []) (All-reverse p h.1) (h.0, tt))

  Walk-All : {i : ℕ} {p : List ℕ} → IsGraph g → i < g.V → Walk g i p → All (λ v. v < g.V) p
  Walk-All w lt one = (lt, tt)
  Walk-All w lt (step {u} {v} s e) = (w.closed u v e, Walk-All w lt s)

  -- The packet of an answer is its text.
  prepare_packet-IsReply :
      (i j : ℕ) (r : Option (Queue ℕ))
      → IsGraph g
      → i < g.V
      → IsAnswer g i j r
      → (text : List ℕ) → prepare_packet g.V r ≡ ok text
      → IsReply i j text
  prepare_packet-IsReply i j none w lt a text e =
      inl (ok-injective (sym e ∙ prepare_packet-none g.V), a)
  prepare_packet-IsReply i j (some q) w lt (p, v, walk, end, least) text e =
      let small = prepare_packet_small g.V (reverse p) q text v e in
      let fits =
        prepare_packet_fits g.V (reverse p) q v (All-reverse p (Walk-All w lt walk)) small in
      inr (p, ok-injective (sym e ∙ fits), walk, end, least)

  -- The cache with one more right text.
  IsSound-to_cache :
      (cache : Cache) (i j : ℕ) (text : List ℕ)
      → IsSound cache
      → i < g.V
      → IsReply i j text
      → (c : Cache) × (to_cache cache i j text ≡ ok c)
        × IsSound c
        × (get_cache c i j ≡ ok (some text))
  IsSound-to_cache cache i j text s lt right =
      let (c, e, l, get) = get_cache-to_cache cache i j text (omega (arith, s.sized)) in
      (
        c,
        e,
        record {
          sized = l ∙ s.sized;
          right = λ i' j' text' found. elim (Bool-cases ((i == i') && (j == j'))) [
            | inl same ↦
                let ei : i ≡ i' = ground arith in
                let ej : j ≡ j' = ground arith in
                let et : text ≡ text' = texts (
                  sym
                    (get i' j' ∙ ap (λ b. if b then ok (some text) else get_cache cache i' j') same)
                  ∙ found) in
                subst (IsReply i' j') et
                  (subst (λ b. IsReply i' b text) ej (subst (λ a. IsReply a j text) ei right))
            | inr other ↦ s.right i' j' text' (
                sym
                  (get i' j' ∙ ap (λ b. if b then ok (some text) else get_cache cache i' j') other)
                ∙ found)
          ];
        },
        get i j ∙ ground arith,
      )

  -- What a request leaves: a right answer, which the cache then holds, and a cache that is still right.
  abbrev pub Served : ℕ → ℕ → List ℕ → Cache → Type 0
  Served i j text c = IsReply i j text × IsSound c × (get_cache c i j ≡ ok (some text))

  module _ (w : IsGraph g) (cache : Cache) (i j : ℕ) (lt : i < g.V) (s : IsSound cache) where
    calculate-Served :
        (text : List ℕ) (c : Cache)
        → g.V ≤ int_max
        → calculate g cache i j ≡ ok (text, c)
        → Served i j text c
    unfolding calculate
    calculate-Served text c small e =
        let (r, e1, e2) = >>=-eq-ok (bfs g i j) _ e in
        let (t, p, e3) = >>=-eq-ok (prepare_packet g.V r) _ e2 in
        let right = prepare_packet-IsReply i j r w lt (bfs_correct g i j r w lt small e1) t p in
        let (c', q, sound, found) = IsSound-to_cache cache i j t s lt right in
        let same : (t, c') ≡ (text, c) = ok-injective (rw q at e3) in
        subst (λ (x : List ℕ × Cache). Served i j x.0 x.1) same (right, sound, found)

    -- With a well-formed graph of at most 2^31 - 1 vertices, a cache whose texts are all right and
    -- a source in the graph, whenever the handler answers a request, the text is that of a
    -- shortest walk or the message that there is none, the cache then answers the pair with that
    -- text, and all its texts are still right.
    pub respond_correct :
        (text : List ℕ) (c : Cache)
        → g.V ≤ int_max
        → respond g cache i j ≡ ok (text, c)
        → Served i j text c
    unfolding respond
    respond_correct text c small e =
        let (o, e1, e2) = >>=-eq-ok (get_cache cache i j) _ e in
        elim (Option-cases o) [
          | inl miss ↦ calculate-Served text c small (rw miss at e2)
          | inr (t, hit) ↦
              let same : (t, cache) ≡ (text, c) = ok-injective (rw hit at e2) in
              let found : get_cache cache i j ≡ ok (some t) = e1 ∙ ap ok hit in
              subst (λ (x : List ℕ × Cache). Served i j x.0 x.1) same
                (s.right i j t found, s, found)
        ]

    -- With a well-formed graph of at most 2^31 - 1 vertices, a cache whose texts are all right and
    -- a source in the graph, a second request for a pair that the handler answered, with the cache
    -- that the first one left, has the same answer and leaves the cache as it is.
    pub respond_again :
        (text : List ℕ) (c : Cache)
        → g.V ≤ int_max
        → respond g cache i j ≡ ok (text, c)
        → respond g c i j ≡ ok (text, c)
    unfolding respond
    respond_again text c small e = rw (respond_correct text c small e).2

  -- With a cache whose texts are all right, a request from a source that is not a vertex of the
  -- graph reads out of bounds.
  pub respond-out_of_bounds :
      (cache : Cache) (i j : ℕ) → IsSound cache → g.V ≤ i → respond g cache i j ≡ err out_of_bounds
  unfolding respond
  respond-out_of_bounds cache i j s h =
      rw (get_cache-out_of_bounds cache i j (omega (arith, s.sized)))
