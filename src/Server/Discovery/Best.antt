-- ===== src/Server/Discovery/Best.antt =====
-- What `discover_good_query_ports` promises of the status port of each server.
use mathlib.Core.Path.{subst}
use swat4stats.Base.{
  ℕ, ◌+◌, ◌≡◌, refl, sym, ap, ◌∙◌, Bool, true, false, ◌&&◌, Option, none, some, List, [], ◌∷◌, map,
  arith, ◌==◌, ltb, if◌then◌else◌, ==_refl, All, All-map, All-map₂, is_some, Bool-cases,
  Option-cases, inl, inr,
}
use swat4stats.Base.Table.{exists, exists_mono, exists-All}
use swat4stats.Base.Sort.{sorted}
use swat4stats.Base.First.{exists-sorted, first_least, first_exists, first_All}
use swat4stats.Models.Server.{Server}
use swat4stats.Server.Create.Laws.{Differs, Unique}
use swat4stats.Server.Listing.{enabled, listed, hget, address, same_address}
use swat4stats.Server.Discovery.{
  Addr, World, QueryPort, preferred_to, probe_tasks, probe_good_query_ports, collect_ports,
  discover_good_query_ports,
}
use swat4stats.Server.Discovery.Ports.{
  Groups, joined, item, offered, ask, collect_ports-Distinct, hget-collect_ports, settled_port,
  prefer_all-settle,
}

preferred_to_asym : (p q : QueryPort) → preferred_to p q ≡ true → preferred_to q p ≡ false
unfolding preferred_to
preferred_to_asym p q h = ground arith

preferred_to_cotrans :
    (p q r : QueryPort)
    → preferred_to p q ≡ false
    → preferred_to q r ≡ false
    → preferred_to p r ≡ false
unfolding preferred_to
preferred_to_cotrans p q r h k = ground arith

-- GS1 before all others, then AdminMod.
abbrev pub worth : QueryPort → ℕ
worth p = (if p.is_gs1 then 2 else 0) + (if p.is_am then 1 else 0)

preferred_to-worth : (p q : QueryPort) → preferred_to p q ≡ ltb (worth q) (worth p)
unfolding preferred_to
preferred_to-worth p q = ground arith

-- A shuffle neither drops nor makes up tasks.
abbrev pub KeepsTasks : (List (Addr × ℕ) → List (Addr × ℕ)) → Type 0
KeepsTasks shuffle =
    (p : Addr × ℕ → Bool) (tasks : List (Addr × ℕ)) → exists p (shuffle tasks) ≡ exists p tasks

-- The distances from the join port that are probed.
abbrev pub steps : List ℕ
steps = 1 ∷ 2 ∷ 3 ∷ 4 ∷ []

-- The listed servers with an address, in a table whose addresses are unique: the one, if it is
-- enabled and listed.
exists-listed_absent :
    (s : Server) (rows : List Server)
    → All (Differs s) rows
    → exists (λ r. same_address (address s) (address r)) (listed rows) ≡ false
unfolding listed enabled
exists-listed_absent s [] d = refl
exists-listed_absent s (r ∷ rows) d = ground (arith, d.0, exists-listed_absent s rows d.1)

exists-listed :
    (rows : List Server)
    → Unique rows
    → All
        (λ s.
          exists (λ r. same_address (address s) (address r)) (listed rows)
          ≡ (s.enabled && s.listed))
        rows
unfolding listed enabled
exists-listed [] u = tt
exists-listed (s ∷ rows) u = (
  ground (arith, exists-listed_absent s rows u.0),
  All-map₂ (λ r d h. ground (arith, d, h)) rows u.0 (exists-listed rows u.1),
)

abbrev passes : (QueryPort → Bool) → Option QueryPort → Bool
passes t none = false
passes t (some p) = t p

and_true : (a b : Bool) → (a && b) ≡ true → (a ≡ true) × (b ≡ true)
and_true a b h = (ground arith, ground arith)

and_on : (a b : Bool) → a ≡ true → (a && b) ≡ false → b ≡ false
and_on a b h k = ground arith

passes_any : (o : Option QueryPort) → passes (λ p. true) o ≡ is_some o
passes_any none = refl
passes_any (some p) = refl

-- The port of the first item, or the old one.
abbrev first_port : List QueryPort → Server → ℕ
first_port [] s = s.status_port
first_port (p ∷ ps) s = p.port

settled_port-first :
    (d : Groups) (s : Server) (ps : List QueryPort)
    → hget (address s) d ≡ joined none ps
    → settled_port d s ≡ first_port (sorted preferred_to ps) s
unfolding settled_port sorted
settled_port-first d s [] e = rw (e, settled_port) refl
settled_port-first d s (p ∷ ps) e = rw (e, settled_port) (by_clauses (sorted preferred_to (p ∷ ps)))
  where
    by_clauses :
        (l : List QueryPort) → (elim l [ [] ↦ s.status_port | p ∷ ps ↦ p.port ]) ≡ first_port l s
    by_clauses [] = refl
    by_clauses (p ∷ l) = refl

module _ {Source Body Info Status : Type 0} (w : World Source Body Info Status) where
  item_port : (a : Addr) (q : ℕ) (p : QueryPort) → item w a q ≡ some p → p.port ≡ q
  unfolding item
  item_port (ip, port) q p e = ground arith

  same_item : (a b : Addr) (q : ℕ) → same_address a b ≡ true → item w b q ≡ item w a q
  same_item (ip, port) (ip', port') q e =
      let i : ip ≡ ip' = ground arith in let p : port ≡ port' = ground arith in rw (i, p) refl

  exists-offered :
      (t : QueryPort → Bool) (a : Addr) (tasks : List (Addr × ℕ))
      → exists t (offered w a tasks)
        ≡ exists (λ (b, q). same_address a b && passes t (item w a q)) tasks
  unfolding offered
  exists-offered t a [] = refl
  exists-offered t a ((b, q) ∷ tasks) = ground (arith, same_item a b q, exists-offered t a tasks)

  -- The items know their ports.
  offered-items :
      (a : Addr) (tasks : List (Addr × ℕ)) → All (λ p. item w a p.port ≡ some p) (offered w a tasks)
  unfolding offered
  offered-items a [] = tt
  offered-items a ((b, q) ∷ tasks) = elim (Bool-cases (same_address a b)) [
    | inr e ↦ rw (e, offered) (offered-items a tasks)
    | inl e ↦ elim (Option-cases (item w b q)) [
      | inl none_there ↦ rw (e, none_there, offered) (offered-items a tasks)
      | inr (p, there) ↦
          let port : p.port ≡ q = item_port b q p there in
          rw (e, there, offered)
            (ap (item w a) port ∙ sym (same_item a b q e) ∙ there, offered-items a tasks)
    ]
  ]

  exists-probe_tasks :
      (t : ℕ → Bool) (a : Addr) (rows : List Server)
      → exists (λ (b, q). same_address a b && t q) (probe_tasks rows)
        ≡ (exists (λ r. same_address a (address r)) rows && exists (λ k. t (a.1 + k)) steps)
  unfolding probe_tasks
  exists-probe_tasks t a [] = refl
  exists-probe_tasks t a (r ∷ rows) = elim (Bool-cases (same_address a (address r))) [
    | inl e ↦
        let p : r.port ≡ a.1 = ground arith in rw p (ground (arith, e, exists-probe_tasks t a rows))
    | inr e ↦ ground (arith, e, exists-probe_tasks t a rows)
  ]

  passes_port :
      (a : Addr) (r q : ℕ) → passes (λ x. x.port == q) (item w a r) ≡ true → (q == r) ≡ true
  passes_port a r q t = elim (Option-cases (item w a r)) [
    | inl e ↦ absurd (ground (arith, e))
    | inr (p, e) ↦ ground (arith, e, item_port a r p e)
  ]

  -- A listed and enabled server with a good answer at one of the four ports.
  abbrev pub is_candidate : Server → Bool
  is_candidate s =
      (s.enabled && s.listed) && exists (λ k. is_some (item w (address s) (s.port + k))) steps

  -- The answer at the port `r` is worth more than the one at `q`.
  abbrev pub outranks : Addr → ℕ → ℕ → Bool
  outranks a r q = passes (λ x. passes (λ y. ltb (worth y) (worth x)) (item w a q)) (item w a r)

  -- The port is one of the four, has a good answer, and no other is worth more.
  abbrev pub IsBest : Server → ℕ → Type 0
  IsBest s q =
      (exists (λ k. q == s.port + k && is_some (item w (address s) q)) steps ≡ true)
      × (exists (λ k. outranks (address s) (s.port + k) q) steps ≡ false)

  -- A row keeps its port if it is no candidate, and gets a best one if it is.
  abbrev pub IsSettled : Server → ℕ → Type 0
  IsSettled s q =
      (is_candidate s ≡ true → IsBest s q) × (is_candidate s ≡ false → q ≡ s.status_port)

  module _ (rows : List Server) (keeps : KeepsTasks w.shuffle) where
    exists-tasks :
        (t : QueryPort → Bool) (s : Server)
        → exists (λ r. same_address (address s) (address r)) (listed rows) ≡ (s.enabled && s.listed)
        → exists t (offered w (address s) (w.shuffle (probe_tasks (listed rows)))) ≡ (
            (s.enabled && s.listed)
            && exists (λ k. passes t (item w (address s) (s.port + k))) steps)
    exists-tasks t s e =
        exists-offered t (address s) (w.shuffle (probe_tasks (listed rows)))
        ∙ keeps _ (probe_tasks (listed rows))
        ∙ exists-probe_tasks (λ q. passes t (item w (address s) q)) (address s) (listed rows)
        ∙ ap (λ b. b && exists (λ k. passes t (item w (address s) (s.port + k))) steps) e

    module _ (s : Server)
        (e : exists (λ r. same_address (address s) (address r)) (listed rows)
          ≡ (s.enabled && s.listed)) where
      abbrev offers : List QueryPort
      offers = offered w (address s) (w.shuffle (probe_tasks (listed rows)))

      is_candidate-offers : exists (λ p. true) offers ≡ is_candidate s
      is_candidate-offers =
          exists-tasks (λ p. true) s e
          ∙ ap (λ t. (s.enabled && s.listed) && exists t steps)
              (λ i k. passes_any (item w (address s) (s.port + k)) i)

      -- The first of the sorted items is the best port.
      first-IsBest :
          (p : QueryPort) (l : List QueryPort)
          → sorted preferred_to offers ≡ p ∷ l
          → IsBest s p.port
      first-IsBest p l h =
          let itself : item w (address s) p.port ≡ some p =
            first_All preferred_to (λ x. item w (address s) x.port ≡ some x) offers p l h
              (offered-items (address s) (w.shuffle (probe_tasks (listed rows)))) in
          let least =
            exists-All (λ x. ltb (worth p) (worth x)) offers
              (All-map (λ x b. sym (preferred_to-worth x p) ∙ b) offers
                (first_least preferred_to preferred_to_asym preferred_to_cotrans offers p l h)) in
          let there =
            first_exists preferred_to offers p l h (λ x. x.port == p.port) (==_refl p.port) in
          let (on, at_step) =
            and_true (s.enabled && s.listed)
              (exists (λ k. passes (λ x. x.port == p.port) (item w (address s) (s.port + k))) steps)
              (sym (exists-tasks (λ x. x.port == p.port) s e) ∙ there) in
          (
            exists_mono (λ k. passes (λ x. x.port == p.port) (item w (address s) (s.port + k)))
                (λ k. p.port == s.port + k && is_some (item w (address s) p.port)) steps
                (λ k t. rw (passes_port (address s) (s.port + k) p.port t, itself) (ground arith))
                at_step,
            rw itself
                (and_on _ _ on (sym (exists-tasks (λ x. ltb (worth p) (worth x)) s e) ∙ least)),
          )

      first_port-IsSettled : IsSettled s (first_port (sorted preferred_to offers) s)
      first_port-IsSettled = by_clauses (sorted preferred_to offers) refl
        where
          by_clauses :
              (l : List QueryPort) → sorted preferred_to offers ≡ l → IsSettled s (first_port l s)
          by_clauses [] h = (
            (λ c. absurd (
                ground (
                  arith,
                  c,
                  is_candidate-offers,
                  exists-sorted preferred_to (λ p. true) offers,
                  ap (exists (λ p. true)) h,
                ))),
            λ c. refl,
          )
          by_clauses (p ∷ l) h = (
            (λ c. first-IsBest p l h),
            λ c. absurd (
                ground (
                  arith,
                  c,
                  is_candidate-offers,
                  exists-sorted preferred_to (λ p. true) offers,
                  ap (exists (λ p. true)) h,
                )),
          )

    settle_row :
        (s : Server)
        → exists (λ r. same_address (address s) (address r)) (listed rows) ≡ (s.enabled && s.listed)
        → IsSettled s (
            settled_port
              (collect_ports w [] (map (ask w) (w.shuffle (probe_tasks (listed rows)))))
              s)
    settle_row s e =
        let d = collect_ports w [] (map (ask w) (w.shuffle (probe_tasks (listed rows)))) in
        subst (IsSettled s)
          (sym (
            settled_port-first d s (offers s e)
              (hget-collect_ports w (address s) (w.shuffle (probe_tasks (listed rows))) [])))
          (first_port-IsSettled s e)

  -- In a table whose addresses are unique, and for a shuffle that neither drops nor makes up
  -- tasks, `discover_good_query_ports` changes nothing but status ports. A listed and enabled
  -- server that gives a good answer at one of the four ports after its join port ends with such a
  -- port, and with none of the four answers worth more than the one at it: an answer that tells the
  -- rounds that SWAT won is worth two, and one that tells the number of rounds one more. Every other
  -- server keeps its port.
  pub discover_good_query_ports-best :
      (rows : List Server)
      → Unique rows
      → KeepsTasks w.shuffle
      → (port : Server → ℕ) × (discover_good_query_ports w rows
          ≡ map (λ (s : Server). record s { status_port = port s }) rows)
        × All (λ s. IsSettled s (port s)) rows
  unfolding discover_good_query_ports probe_good_query_ports
  discover_good_query_ports-best rows u keeps =
      let d = collect_ports w [] (map (ask w) (w.shuffle (probe_tasks (listed rows)))) in
      (
        settled_port d,
        prefer_all-settle d rows
            (collect_ports-Distinct w (w.shuffle (probe_tasks (listed rows))) [] tt),
        All-map (λ s e. settle_row rows keeps s e) rows (exists-listed rows u),
      )
