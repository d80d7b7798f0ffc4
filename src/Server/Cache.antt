-- ===== src/Server/Cache.antt =====
-- The cache of final-project/solution/source/cache.h: for each source a chain of nodes, each with a
-- destination and the text of a path. The text is never written after it is cached, so the pointer
-- to it is the text, as bytes; FALSE, the null pointer, is `none`.
pub mod Laws
use cse344_assignments.Base.{
  ℕ, List, [], ◌∷◌, Option, none, some, ◌==◌, if◌then◌else◌, Result, ok, ◌>>=◌, load, store,
  replicate,
}

pub record CacheNode : Type 0 where
  pub vertex : ℕ
  pub path : List ℕ

pub record Cache : Type 0 where
  pub V : ℕ
  pub list : List (List CacheNode)

unfoldable pub create_cache : ℕ → Cache
create_cache V = record { V = V; list = replicate V [] }

unfoldable pub to_cache : Cache → ℕ → ℕ → List ℕ → Result Cache
to_cache cache i j path = do
  chain ← load cache.list i
  list ← store cache.list i (record { vertex = j; path = path } ∷ chain)
  ok (record cache { list = list })

-- The walk along a chain.
unfoldable pub find_path : List CacheNode → ℕ → Option (List ℕ)
find_path [] j = none
find_path (node ∷ next) j = if node.vertex == j then some node.path else find_path next j

unfoldable pub get_cache : Cache → ℕ → ℕ → Result (Option (List ℕ))
unfolding find_path
get_cache cache i j = do chain ← load cache.list i; ok (find_path chain j)
