-- ===== src/Server/Listing/Cycle.antt =====
-- The life of a server that is down under the two periodic tasks, which the schedule of
-- swat4stats/settings.py starts each on its own clock: their runs are taken in any order and number, one
-- after the other.
use swat4stats.Base.{
  ℕ, ◌+◌, ◌≡◌, refl, Bool, true, false, ◌||◌, not, List, [], ◌∷◌, map, arith, leb, sym, ap, ◌∙◌,
  All, some, ◌==◌, ==_iff, Bool-cases, inl, inr,
}
use mathlib.Core.List.{map-id, map-map}
use mathlib.Core.Option
use swat4stats.Base.Keys.{UniqueKeys, UniqueKeys-map, find?-map}
use swat4stats.Base.Table.{find?, find?_holds}
use swat4stats.Models.Server.{Server}
use swat4stats.Server.Listing.{tolerated_failures, Cache, broken}
use swat4stats.Server.Listing.Refresh.{Env, verdict, refresh_listed_servers}
use swat4stats.Server.Listing.RefreshLaws.{pk, refreshed, refresh_listed_servers-refreshed}
use swat4stats.Server.Listing.Unlist.{
  unlist_failed_servers, unlisted, unlist_failed_servers-unlisted,
}

-- A run of one of the tasks `refresh_listed_servers` and `unlist_failed_servers`.
pub data Run (Info Status : Type 0) : Type 0 where
  refresh : Env Info Status → Run Info Status
  unlist : Run Info Status

module _ {Info Status : Type 0} where
  unfoldable pub run : Run Info Status → List Server × Cache Status → List Server × Cache Status
  unfolding refresh_listed_servers unlist_failed_servers
  run (refresh env) st = refresh_listed_servers env st
  run unlist st = unlist_failed_servers st

  unfoldable pub runs :
      List (Run Info Status) → List Server × Cache Status → List Server × Cache Status
  unfolding run
  runs [] st = st
  runs (r ∷ rs) st = runs rs (run r st)

  -- The same for one row.
  abbrev step : Run Info Status → Server → Server
  step (refresh env) s = refreshed env s
  step unlist s = unlisted s

  abbrev life : List (Run Info Status) → Server → Server
  life [] s = s
  life (r ∷ rs) s = life rs (step r s)

  -- In every refresh the server answers with an exception or with invalid data.
  abbrev pub FindsDown : ℕ → Run Info Status → Type 0
  FindsDown k (refresh env) = (s : Server) → s.pk ≡ k → verdict env s (env.request s) ≡ broken
  FindsDown k unlist = Unit

  -- Whether some unlisting comes when the failures, counted on from a number by the refreshes, have
  -- reached the limit.
  abbrev pub drops : ℕ → List (Run Info Status) → Bool
  drops failures [] = false
  drops failures (refresh env ∷ rs) = drops (failures + 1) rs
  drops failures (unlist ∷ rs) = leb tolerated_failures failures || drops failures rs

  pk-step : (r : Run Info Status) (s : Server) → (step r s).pk ≡ s.pk
  pk-step (refresh env) s = ground arith
  pk-step unlist s = ground arith

  pk-life : (rs : List (Run Info Status)) (s : Server) → (life rs s).pk ≡ s.pk
  pk-life [] s = refl
  pk-life (r ∷ rs) s = pk-life rs (step r s) ∙ pk-step r s

  run-step :
      (r : Run Info Status) (st : List Server × Cache Status)
      → UniqueKeys pk st.0
      → (run r st).0 ≡ map (step r) st.0
  unfolding run
  run-step (refresh env) (rows, cache) u = refresh_listed_servers-refreshed env rows cache u
  run-step unlist (rows, cache) u = unlist_failed_servers-unlisted rows cache u

  runs-life :
      (rs : List (Run Info Status)) (st : List Server × Cache Status)
      → UniqueKeys pk st.0
      → (runs rs st).0 ≡ map (life rs) st.0
  unfolding runs
  runs-life [] st u = sym (map-id st.0)
  runs-life (r ∷ rs) st u =
      let e = run-step r st u in
      let kept : UniqueKeys pk (run r st).0 =
        rw e (UniqueKeys-map pk pk (step r) st.0 (pk-step r) u) in
      runs-life rs (run r st) kept ∙ ap (map (life rs)) e ∙ map-map (life rs) (step r) st.0

  life_unlisted : (rs : List (Run Info Status)) (s : Server) → s.listed ≡ false → life rs s ≡ s
  life_unlisted [] s h = refl
  life_unlisted (refresh env ∷ rs) s h =
      let e : refreshed env s ≡ s = ground arith in rw e (life_unlisted rs s h)
  life_unlisted (unlist ∷ rs) s h =
      let e : unlisted s ≡ s = ground arith in rw e (life_unlisted rs s h)

  life_down :
      (rs : List (Run Info Status)) (s : Server)
      → All (FindsDown s.pk) rs
      → s.enabled ≡ true
      → s.listed ≡ true
      → (life rs s).listed ≡ not (drops s.failures rs)
  life_down [] s d on l = l
  life_down (refresh env ∷ rs) s d on l =
      let e : refreshed env s ≡ record s { failures = s.failures + 1 } =
        ground (arith, d.0 s refl) in
      ap (λ t. (life rs t).listed) e
      ∙ life_down rs (record s { failures = s.failures + 1 }) d.1 on l
  life_down (unlist ∷ rs) s d on l = elim (Bool-cases (leb tolerated_failures s.failures)) [
    | inl last ↦
        let e : unlisted s ≡ record s { listed = false } = ground (arith, last) in
        ap (λ t. (life rs t).listed) e
        ∙ ap (λ t. t.listed) (life_unlisted rs (record s { listed = false }) refl)
        ∙ rw last refl
    | inr more ↦
        let e : unlisted s ≡ s = ground (arith, more) in
        ap (λ t. (life rs t).listed) e ∙ life_down rs s d.1 on l ∙ rw more refl
  ]

  -- In a table with distinct keys, a listed and enabled server that every refresh finds down is off
  -- the list after any runs of the two tasks, in whatever order and number, exactly if some unlisting
  -- ran when the server's failures, one more for each refresh before it, had reached twelve.
  pub runs_down :
      (rs : List (Run Info Status)) (rows : List Server) (cache : Cache Status) (k : ℕ) (s : Server)
      → UniqueKeys pk rows
      → find? (λ r. r.pk == k) rows ≡ some s
      → All (FindsDown k) rs
      → s.enabled ≡ true
      → s.listed ≡ true
      → Option.map (λ t. t.listed) (find? (λ r. r.pk == k) (runs rs (rows, cache)).0)
        ≡ some (not (drops s.failures rs))
  runs_down rs rows cache k s u found d on l =
      let same : s.pk ≡ k = (==_iff s.pk k).0 (find?_holds (λ r. r.pk == k) rows s found) in
      rw (runs-life rs (rows, cache) u, find?-map pk pk (life rs) k rows (pk-life rs), found)
        (ap some (life_down rs s (rw same d) on l))
