-- ===== src/Server/Discovery/Published.antt =====
-- What `discover_published_servers` promises: it composes the union of the sources, the probe, the
-- registration and the relisting.
use mathlib.Core.Path.{subst}
use swat4stats.Base.{
  ℕ, ◌+◌, ◌<◌, ◌≡◌, refl, ap, ◌∙◌, Bool, true, false, ◌&&◌, ◌||◌, none, some, List, [], ◌∷◌, ◌++◌,
  map, arith, elem, All, All-all, All-map, is_some,
}
use swat4stats.Base.Table.{select, exists, update_where, All-update_where}
use swat4stats.Base.Keys.{UniqueKeys, elem-keys}
use swat4stats.Models.Db.{Db}
use swat4stats.Models.Server.{Server}
use swat4stats.Server.Create.{create_servers}
use swat4stats.Server.Create.Laws.{Differs, Unique, IsRegistry, requested, create_servers_answer}
use swat4stats.Server.Listing.{Response, failed, received, relist_servers, address, same_address}
use swat4stats.Server.Discovery.{
  Addr, World, elem_addr, union, discover, run_sources, collect_addrs, discover_published_addrs,
  probe_published_addrs, good_status, good_server_addrs, accept, discover_published_servers,
}

elem_addr-append :
    (a : Addr) (xs ys : List Addr) → elem_addr a (xs ++ ys) ≡ (elem_addr a xs || elem_addr a ys)
elem_addr-append a [] ys = refl
elem_addr-append a (x ∷ xs) ys = ground (arith, elem_addr-append a xs ys)

elem_addr_same :
    (a b : Addr) (xs : List Addr) → same_address a b ≡ true → elem_addr b xs ≡ elem_addr a xs
elem_addr_same a b [] e = refl
elem_addr_same a b (x ∷ xs) e = ground (arith, elem_addr_same a b xs e)

elem_addr-union :
    (a : Addr) (xs more : List Addr)
    → elem_addr a (union xs more) ≡ (elem_addr a xs || elem_addr a more)
unfolding union
elem_addr-union a xs [] = ground arith
elem_addr-union a xs (b ∷ more) = ground (
  arith,
  elem_addr-union a xs more,
  elem_addr-union a (xs ++ b ∷ []) more,
  elem_addr-append a xs (b ∷ []),
  elem_addr_same a b xs,
)

abbrev pub yields : Addr → Response (List Addr) → Bool
yields a failed = false
yields a (received addrs) = elem_addr a addrs

module _ {Source Body Info Status : Type 0} (w : World Source Body Info Status) where
  -- The source has a parser, answers well and its page parses to a list with the address.
  unfoldable pub publishes : Addr → Source → Bool
  publishes a source = elim (w.import_parser source) [
    | none ↦ false
    | some parser ↦ yields a (discover w parser source)
  ]

  -- A status request to the port after the join port gets valid data with the same join port.
  abbrev pub is_live : Server → Bool
  is_live s = is_some (good_status w s.port (w.request s.ip (s.port + 1)))

  elem_addr-collect_addrs :
      (a : Addr) (xs : List Addr) (rs : List (Response (List Addr)))
      → elem_addr a (collect_addrs w xs rs) ≡ (elem_addr a xs || exists (yields a) rs)
  unfolding collect_addrs
  elem_addr-collect_addrs a xs [] = ground arith
  elem_addr-collect_addrs a xs (failed ∷ rs) = ground (arith, elem_addr-collect_addrs a xs rs)
  elem_addr-collect_addrs a xs (received more ∷ rs) =
      ground (arith, elem_addr-collect_addrs a (union xs more) rs, elem_addr-union a xs more)

  exists-run_sources :
      (a : Addr) (sources : List Source)
      → exists (yields a) (run_sources w sources) ≡ exists (publishes a) sources
  unfolding run_sources publishes
  exists-run_sources a [] = refl
  exists-run_sources a (source ∷ sources) = ground (arith, exists-run_sources a sources)

  live_at :
      (s : Server) (ip port : ℕ)
      → same_address (address s) (ip, port) ≡ true
      → is_live s ≡ is_some (good_status w port (w.request ip (port + 1)))
  live_at s ip port e =
      let i : s.ip ≡ ip = ground arith in
      let p : s.port ≡ port = ground arith in
      ap (λ a. is_some (good_status w a.1 (w.request a.0 (a.1 + 1)))) (pair s.ip ip s.port port i p)
    where
      pair : (a b c d : ℕ) → a ≡ b → c ≡ d → Path (ℕ × ℕ) (a, c) (b, d)
      pair a b c d e f = cc

  requested-good_server_addrs :
      (s : Server) (addrs : List Addr)
      → requested (good_server_addrs w (probe_published_addrs w addrs)) s
        ≡ (elem_addr (address s) addrs && is_live s)
  unfolding good_server_addrs probe_published_addrs
  requested-good_server_addrs s [] = refl
  requested-good_server_addrs s ((ip, port) ∷ addrs) =
      ground (arith, live_at s ip port, requested-good_server_addrs s addrs)

  -- The address of the row is published, and the server answers there.
  abbrev pub is_discovered : List Source → Server → Bool
  is_discovered sources s = exists (publishes (address s)) sources && is_live s

  requested-discovered :
      (sources : List Source) (s : Server)
      → requested
          (good_server_addrs w (probe_published_addrs w (discover_published_addrs w sources)))
          s
        ≡ is_discovered sources s
  unfolding discover_published_addrs
  requested-discovered sources s =
      requested-good_server_addrs s (discover_published_addrs w sources)
      ∙ ap (λ b. b && is_live s)
          (elem_addr-collect_addrs (address s) [] (run_sources w sources)
            ∙ exists-run_sources (address s) sources)

Unique-keys : (rows : List Server) → Unique rows → UniqueKeys (λ s. s.pk) rows
Unique-keys [] u = tt
Unique-keys (s ∷ rows) u = (All-map (λ t d. d.0) rows u.0, Unique-keys rows u.1)

-- An update that leaves the keys and the addresses alone keeps them unique.
Unique-map :
    (f : Server → Server) (rows : List Server)
    → ((s : Server) → ((f s).pk ≡ s.pk) × ((f s).ip ≡ s.ip) × ((f s).port ≡ s.port))
    → Unique rows
    → Unique (map f rows)
Unique-map f [] e u = tt
Unique-map f (s ∷ rows) e u = (head s rows e u.0, Unique-map f rows e u.1)
  where
    head :
        (s : Server) (rows : List Server)
        → ((s : Server) → ((f s).pk ≡ s.pk) × ((f s).ip ≡ s.ip) × ((f s).port ≡ s.port))
        → All (Differs s) rows
        → All (Differs (f s)) (map f rows)
    head s [] e d = tt
    head s (t ∷ rows) e d = (ground (arith, e s, e t, d.0), head s rows e d.1)

abbrev wanted : List Addr → Server → Bool
wanted addrs s = s.enabled && requested addrs s

-- The table is a registry, the rows are the enabled ones of the addresses, and these are listed.
abbrev IsAccepted : (Server → Bool) → List Server × Db → Type 0
IsAccepted p (rows, db) =
    IsRegistry db
    × (map (λ s. s.pk) rows ≡ map (λ s. s.pk) (select p db.servers))
    × All (λ s. p s ≡ true → s.listed ≡ true) db.servers

abbrev relist : Server → Server
relist s = record s { listed = true; failures = 0 }

module _ (addrs : List Addr) (q : Server → Bool) where
  keys-relist :
      (rows : List Server)
      → map (λ (s : Server). s.pk) (select (wanted addrs) rows)
        ≡ map (λ s. s.pk) (select (wanted addrs) (update_where q relist rows))
  keys-relist [] = refl
  keys-relist (s ∷ rows) = ground (arith, keys-relist rows, requested_same addrs s)
    where
      requested_same :
          (addrs : List Addr) (s : Server) → requested addrs (relist s) ≡ requested addrs s
      requested_same [] s = refl
      requested_same (a ∷ addrs) s = ground (arith, requested_same addrs s)

  relist-IsRegistry :
      (db : Db)
      → IsRegistry db
      → IsRegistry (record db { servers = update_where q relist db.servers })
  relist-IsRegistry db valid = record {
    keys =
        All-update_where (λ s. s.pk < db.next_server) _ q relist db.servers (λ s h e. h)
          (λ s h e. h) valid.keys;
    unique = Unique-map _ db.servers (λ s. ground arith) valid.unique;
  }

accept-IsAccepted :
    (addrs : List Addr) (db : Db) → IsRegistry db → IsAccepted (wanted addrs) (accept addrs db)
unfolding accept relist_servers
accept-IsAccepted [] db valid =
    (valid, nothing db.servers, All-all _ (λ s e. ground arith) db.servers)
  where
    nothing :
        (rows : List Server)
        → map {A = Server} (λ s. s.pk) [] ≡ map (λ s. s.pk) (select (wanted []) rows)
    nothing [] = refl
    nothing (s ∷ rows) = ground (arith, nothing rows)
accept-IsAccepted (a ∷ addrs) db valid =
    let (registry, rows) = create_servers_answer (a ∷ addrs) db valid in
    let made = (create_servers (a ∷ addrs) db).1 in
    let known =
      elem-keys (λ (s : Server). s.pk) (wanted (a ∷ addrs)) made.servers
        (Unique-keys made.servers registry.unique) in
    (
      relist-IsRegistry (a ∷ addrs) _ made registry,
      ap (map (λ s. s.pk)) rows ∙ keys-relist (a ∷ addrs) _ made.servers,
      All-update_where
          (λ s.
            elem s.pk (map (λ s. s.pk) (create_servers (a ∷ addrs) db).0) ≡ wanted (a ∷ addrs) s)
          (λ s. wanted (a ∷ addrs) s ≡ true → s.listed ≡ true) _ relist made.servers
          (λ s h e p. refl) (λ s h e p. ground arith) (rw rows known),
    )

module _ {Source Body Info Status : Type 0} (w : World Source Body Info Status) where
  -- On a table whose keys and addresses are unique they stay unique, the answer of
  -- `discover_published_servers` has the keys of exactly the enabled rows whose address some source
  -- publishes and that answer with valid data for their own join port, and all these rows are
  -- listed afterwards.
  pub discover_published_servers-listed :
      (sources : List Source) (db : Db)
      → IsRegistry db
      → let (rows, db') = discover_published_servers w sources db in
        IsRegistry db'
        × (map (λ s. s.pk) rows
            ≡ map (λ s. s.pk) (select (λ s. s.enabled && is_discovered w sources s) db'.servers))
        × All (λ s. (s.enabled && is_discovered w sources s) ≡ true → s.listed ≡ true) db'.servers
  unfolding discover_published_servers
  discover_published_servers-listed sources db valid =
      let addrs =
        good_server_addrs w (probe_published_addrs w (discover_published_addrs w sources)) in
      let same : wanted addrs ≡ (λ s. s.enabled && is_discovered w sources s) =
        λ i s. s.enabled && requested-discovered w sources s i in
      subst (λ p. IsAccepted p (accept addrs db)) same (accept-IsAccepted addrs db valid)
