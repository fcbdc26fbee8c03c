-- ===== src/Distributed/Workers/Tests.antt =====
-- A server with three keys of workers, one of them gone by the time it is read.
use agora_etl_plugins.Common.{
  ℕ, ◌≡◌, refl, String, true, Option, none, some, List, [], ◌∷◌, map, inr, inl, string_eq, ◌==◌,
  if◌then◌else◌,
}
use agora_etl_plugins.Common.Sets.{has, add}
use agora_etl_plugins.Distributed.Workers.{Page, list_workers}
use agora_etl_plugins.Distributed.Workers.Listed.{once, scanned, workers_at, list_workers-eq}

-- What the keys hold: the pid of a worker.
abbrev value : String → Option ℕ
value key = if key == "workers:a" then some 11 else if key == "workers:c" then some 33 else none

abbrev pages : List Page
pages =
    record { cursor = 7; keys = "workers:a" ∷ "workers:b" ∷ [] }
    ∷ record { cursor = 3; keys = [] }
    ∷ record { cursor = 0; keys = "workers:a" ∷ "workers:c" ∷ [] }
    ∷ record { cursor = 9; keys = "workers:d" ∷ [] }
    ∷ []

found : list_workers (map value) (λ raw. raw) true 2 pages ≡ some (11 ∷ 33 ∷ [])
unfolding list_workers has add
found = refl

list_workers-eq_example :
    list_workers (map value) (λ raw. raw) true 2 pages
    ≡ some (workers_at (map value) (λ raw. raw) value (λ keys. refl) (once [] (scanned pages)))
list_workers-eq_example =
    list_workers-eq (map value) (λ raw. raw) value (λ keys. refl) 2 pages (inr (inr (inl refl)))
