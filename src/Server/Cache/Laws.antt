-- ===== src/Server/Cache/Laws.antt =====
-- The cache is a map from pairs of vertices to texts.
use cse344_assignments.Base.{
  ℕ, zero, suc, ◌<◌, ◌≤◌, ◌≡◌, refl, ◌∙◌, List, [], ◌∷◌, none, some, ◌==◌, if◌then◌else◌, ◌&&◌, ok,
  err, ◌>>=◌, load, replicate, length, set, length-set, load_total, store_lem, load-out_of_bounds,
  out_of_bounds, arith,
}
use cse344_assignments.Server.Cache.{CacheNode, Cache, create_cache, to_cache, find_path, get_cache}

load-set :
    (xs : List (List CacheNode)) (i j : ℕ) (v : List CacheNode)
    → i < length xs
    → load (set xs i v) j ≡ (if i == j then ok v else load xs j)
load-set [] i j v h = elim h [ ]
load-set (x ∷ xs) zero zero v h = refl
load-set (x ∷ xs) zero (suc j) v h = ground arith
load-set (x ∷ xs) (suc i) zero v h = ground arith
load-set (x ∷ xs) (suc i) (suc j) v h = load-set xs i j v (omega arith) ∙ ground arith

load-replicate : (n i : ℕ) → i < n → load {A = List CacheNode} (replicate n []) i ≡ ok []
load-replicate zero i h = elim h [ ]
load-replicate (suc n) zero h = refl
load-replicate (suc n) (suc i) h = load-replicate n i (omega arith)

-- A new cache has no path.
pub get_cache-create_cache : (V i j : ℕ) → i < V → get_cache (create_cache V) i j ≡ ok none
unfolding get_cache create_cache
get_cache-create_cache V i j lt = rw (load-replicate V i lt)

module _ (cache : Cache) (i j : ℕ) (path : List ℕ) (lt : i < length cache.list) where
  -- to_cache at a source in the cache succeeds; afterwards the pair finds the new text and every
  -- other pair finds what it found before.
  pub get_cache-to_cache :
      (c : Cache) × (to_cache cache i j path ≡ ok c)
      × (length c.list ≡ length cache.list)
      × ((i' j' : ℕ)
          → get_cache c i' j'
            ≡ (if (i == i') && (j == j') then ok (some path) else get_cache cache i' j'))
  unfolding to_cache get_cache
  get_cache-to_cache =
      let (chain, at) = load_total cache.list i lt in
      let node : CacheNode = record { vertex = j; path = path } in
      let list = set cache.list i (node ∷ chain) in
      (
        record cache { list = list },
        rw (at, store_lem cache.list i (node ∷ chain) lt),
        length-set cache.list i (node ∷ chain),
        λ i' j'. get i' j' chain at,
      )
    where
      get :
          (i' j' : ℕ) (chain : List CacheNode)
          → load cache.list i ≡ ok chain
          → (load (set cache.list i (record { vertex = j; path = path } ∷ chain)) i' >>= λ c.
              ok (find_path c j'))
            ≡ (if (i == i') && (j == j')
                then ok (some path)
                else (load cache.list i' >>= λ c. ok (find_path c j')))
      get i' j' chain at =
          ground
            (arith, load-set cache.list i i' (record { vertex = j; path = path } ∷ chain) lt, at)

-- A source outside the cache is read past the end of the array.
pub get_cache-out_of_bounds :
    (cache : Cache) (i j : ℕ) → length cache.list ≤ i → get_cache cache i j ≡ err out_of_bounds
unfolding get_cache
get_cache-out_of_bounds cache i j h = rw (load-out_of_bounds cache.list i h)
