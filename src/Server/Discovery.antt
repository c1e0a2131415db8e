-- ===== src/Server/Discovery.antt =====
-- Discovery of servers and of their status ports: `discover_published_servers` and
-- `discover_good_query_ports` of apps/tracker/managers/server.py with what they call, and
-- `ServerDiscoveryTask` of apps/tracker/aio_tasks/discovery.py. The web, the parsers of the sources,
-- the answers of the game servers and the schema that checks them are parameters. An address is the
-- IPv4 number and the join port as numbers; the texts that stand for them are not modelled.
pub mod Published
pub mod Ports
pub mod Best
mod Tests
use swat4stats.Base.{
  ℕ, ◌+◌, Bool, true, false, ◌&&◌, ◌||◌, not, Option, none, some, List, [], ◌∷◌, ◌++◌, map, leb,
  ◌==◌, if◌then◌else◌,
}
use swat4stats.Base.Table.{update_where}
use swat4stats.Base.Sort.{sorted}
use swat4stats.Models.Db.{Db}
use swat4stats.Models.Server.{Server}
use swat4stats.Server.Create.{create_servers}
use swat4stats.Server.Listing.{
  Response, failed, received, relist_servers, listed, address, same_address,
}

abbrev pub Addr : Type 0
Addr = ℕ × ℕ

-- What the code takes from elsewhere. `import_parser` is `import_string` of the source's parser,
-- `none` where it raises; the parser itself may raise too. `get` is the HTTP request, with the
-- status of the response. `request` is the status request to an IP and a port, `schema` is
-- `serverquery_schema`, with the fields that discovery reads. `shuffle` is `random.shuffle`.
pub record World (Source Body Info Status : Type 0) : Type 0 where
  pub import_parser : Source → Option (Body → Option (List Addr))
  pub get : Source → Option (ℕ × Body)
  pub request : ℕ → ℕ → Response Info
  pub schema : Info → Option Status
  pub hostport : Status → ℕ
  pub has_swatwon : Status → Bool
  pub has_numrounds : Status → Bool
  pub shuffle : List (Addr × ℕ) → List (Addr × ℕ)

-- `a in addrs`
abbrev pub elem_addr : Addr → List Addr → Bool
elem_addr a [] = false
elem_addr a (b ∷ addrs) = same_address a b || elem_addr a addrs

-- `addrs | set(more)`: a set as the list of its members
unfoldable pub union : List Addr → List Addr → List Addr
union addrs [] = addrs
union addrs (a ∷ more) =
    if elem_addr a addrs then union addrs more else union (addrs ++ a ∷ []) more

-- What the discovery of ports keeps of an answer.
pub record QueryPort : Type 0 where
  pub port : ℕ
  pub is_gs1 : Bool
  pub is_am : Bool

-- The key `(is_gs1, is_am)` of `p` is greater: `reverse=True`.
unfoldable pub preferred_to : QueryPort → QueryPort → Bool
preferred_to p q =
    p.is_gs1 && not q.is_gs1
    || (p.is_gs1 && q.is_gs1 || not p.is_gs1 && not q.is_gs1) && p.is_am && not q.is_am

-- `probed_query_ports.setdefault(addr, []).append(item)`
unfoldable pub append_port :
    Addr → QueryPort → List (Addr × List QueryPort) → List (Addr × List QueryPort)
append_port a p [] = (a, p ∷ []) ∷ []
append_port a p ((b, ports) ∷ d) =
    if same_address a b then (b, ports ++ p ∷ []) ∷ d else (b, ports) ∷ append_port a p d

-- The update of one address. The items are never empty.
unfoldable pub prefer : Addr → List QueryPort → List Server → List Server
prefer a [] rows = rows
prefer a (p ∷ ports) rows =
    update_where (λ s. same_address a (address s) && not (s.status_port == p.port))
      (λ s. record s { status_port = p.port }) rows

unfoldable pub prefer_all : List (Addr × List QueryPort) → List Server → List Server
unfolding prefer
prefer_all [] rows = rows
prefer_all ((a, ports) ∷ d) rows = prefer_all d (prefer a (sorted preferred_to ports) rows)

-- `create_servers` and `relist_servers` in one transaction; the rows were read before the relisting.
unfoldable pub accept : List Addr → Db → List Server × Db
unfolding create_servers relist_servers
accept [] db = ([], db)
accept (a ∷ addrs) db =
    let (rows, db') = create_servers (a ∷ addrs) db in
    (rows, record db' { servers = (relist_servers (map (λ s. s.pk) rows) db'.servers).1 })

-- The tasks of `_probe_good_query_ports`: the ports after the join port, up to the fourth.
unfoldable pub probe_tasks : List Server → List (Addr × ℕ)
probe_tasks [] = []
probe_tasks (s ∷ rows) =
    (address s, s.port + 1)
    ∷ (address s, s.port + 2)
    ∷ (address s, s.port + 3)
    ∷ (address s, s.port + 4)
    ∷ probe_tasks rows

module _ {Source Body Info Status : Type 0} (w : World Source Body Info Status) where
  -- `ServerDiscoveryTask.start`, with `execute` handing on the exception
  unfoldable pub discover : (Body → Option (List Addr)) → Source → Response (List Addr)
  discover parser source = elim (w.get source) [
    | none ↦ failed
    | some (code, body) ↦
        if leb 200 code && leb code 299
        then elim (parser body) [ none ↦ failed | some addrs ↦ received addrs ]
        else failed
  ]

  -- The tasks, run in the order of the sources; a source whose parser is missing has none.
  unfoldable pub run_sources : List Source → List (Response (List Addr))
  run_sources [] = []
  run_sources (source ∷ sources) = elim (w.import_parser source) [
    | none ↦ run_sources sources
    | some parser ↦ discover parser source ∷ run_sources sources
  ]

  unfoldable pub collect_addrs : List Addr → List (Response (List Addr)) → List Addr
  collect_addrs addrs [] = addrs
  collect_addrs addrs (failed ∷ result) = collect_addrs addrs result
  collect_addrs addrs (received more ∷ result) = collect_addrs (union addrs more) result

  -- `_discover_published_addrs`
  unfoldable pub discover_published_addrs : List Source → List Addr
  unfolding run_sources collect_addrs
  discover_published_addrs sources = collect_addrs [] (run_sources sources)

  -- `_probe_published_addrs`
  unfoldable pub probe_published_addrs : List Addr → List (Addr × Response Info)
  probe_published_addrs = map (λ (ip, port). ((ip, port), w.request ip (port + 1)))

  -- The checks that both loops over answers make: the status, where it is good.
  unfoldable pub good_status : ℕ → Response Info → Option Status
  good_status port failed = none
  good_status port (received info) = elim (w.schema info) [
    | none ↦ none
    | some st ↦ if w.hostport st == port then some st else none
  ]

  unfoldable pub good_server_addrs : List (Addr × Response Info) → List Addr
  good_server_addrs [] = []
  good_server_addrs (((ip, port), r) ∷ rest) = elim (good_status port r) [
    | none ↦ good_server_addrs rest
    | some st ↦ (ip, port) ∷ good_server_addrs rest
  ]

  -- `discover_published_servers`
  unfoldable pub discover_published_servers : List Source → Db → List Server × Db
  unfolding discover_published_addrs probe_published_addrs good_server_addrs accept
  discover_published_servers sources db =
      accept (good_server_addrs (probe_published_addrs (discover_published_addrs sources))) db

  -- `_probe_good_query_ports`; the keys are distinct where the addresses of the servers are
  unfoldable pub probe_good_query_ports : List Server → List ((Addr × ℕ) × Response Info)
  unfolding probe_tasks
  probe_good_query_ports rows =
      map (λ ((ip, port), q). (((ip, port), q), w.request ip q)) (w.shuffle (probe_tasks rows))

  unfoldable pub collect_ports :
      List (Addr × List QueryPort)
      → List ((Addr × ℕ) × Response Info)
      → List (Addr × List QueryPort)
  unfolding append_port
  collect_ports d [] = d
  collect_ports d ((((ip, port), q), r) ∷ rest) = elim (good_status port r) [
    | none ↦ collect_ports d rest
    | some st ↦
        collect_ports
          (append_port (ip, port)
            (record { port = q; is_gs1 = w.has_swatwon st; is_am = w.has_numrounds st }) d)
          rest
  ]

  -- `discover_good_query_ports`
  unfoldable pub discover_good_query_ports : List Server → List Server
  unfolding probe_good_query_ports collect_ports prefer_all
  discover_good_query_ports rows =
      prefer_all (collect_ports [] (probe_good_query_ports (listed rows))) rows
