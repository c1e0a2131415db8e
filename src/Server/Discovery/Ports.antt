-- ===== src/Server/Discovery/Ports.antt =====
-- What the loops of `discover_good_query_ports` do to each row: the answers grouped by the address
-- of the server, and the update of one address after the other.
use swat4stats.Base.{
  ℕ, ◌≡◌, refl, sym, ap, ◌∙◌, true, ◌&&◌, not, Option, none, some, List, [], ◌∷◌, ◌++◌, map, arith,
  ◌==◌, if◌then◌else◌, All-all, Bool-cases, Option-cases, inl, inr,
}
use mathlib.Core.List.{map-map, map-id, append_assoc, append-nil}
use mathlib.Core.Option
use swat4stats.Base.Sort.{sorted}
use swat4stats.Base.Table.{map_congr}
use swat4stats.Models.Server.{Server}
use swat4stats.Server.Listing.{Response, hget, address, same_address}
use swat4stats.Server.Discovery.{
  Addr, World, QueryPort, good_status, append_port, collect_ports, preferred_to, prefer, prefer_all,
}

abbrev pub Groups : Type 0
Groups = List (Addr × List QueryPort)

-- What is known of an address, with more items behind.
abbrev pub joined : Option (List QueryPort) → List QueryPort → Option (List QueryPort)
joined none [] = none
joined none (p ∷ ps) = some (p ∷ ps)
joined (some qs) ps = some (qs ++ ps)

hget-append_port :
    (a b : Addr) (p : QueryPort) (d : Groups)
    → hget a (append_port b p d)
      ≡ (if same_address a b then joined (hget a d) (p ∷ []) else hget a d)
unfolding append_port
hget-append_port a b p [] = ground arith
hget-append_port a b p ((c, ports) ∷ d) = ground (arith, hget-append_port a b p d)

-- No address has two groups.
abbrev pub Distinct : Groups → Type 0
Distinct [] = Unit
Distinct ((a, ports) ∷ d) = (hget a d ≡ none) × Distinct d

append_port-Distinct :
    (b : Addr) (p : QueryPort) (d : Groups) → Distinct d → Distinct (append_port b p d)
unfolding append_port
append_port-Distinct b p [] u = (refl, tt)
append_port-Distinct b p ((c, ports) ∷ d) u = elim (Bool-cases (same_address b c)) [
  | inl e ↦ rw e u
  | inr e ↦ rw e (hget-append_port c b p d ∙ ground (arith, u.0), append_port-Distinct b p d u.1)
]

module _ {Source Body Info Status : Type 0} (w : World Source Body Info Status) where
  -- The good answer of a server at a port.
  unfoldable pub item : Addr → ℕ → Option QueryPort
  item (ip, port) q =
      Option.map (λ st. record { port = q; is_gs1 = w.has_swatwon st; is_am = w.has_numrounds st })
        (good_status w port (w.request ip q))

  -- The good answers of one server, in the order of the tasks.
  unfoldable pub offered : Addr → List (Addr × ℕ) → List QueryPort
  offered a [] = []
  offered a ((b, q) ∷ tasks) =
      if same_address a b
      then elim (item b q) [ none ↦ offered a tasks | some p ↦ p ∷ offered a tasks ]
      else offered a tasks

  abbrev pub ask : Addr × ℕ → (Addr × ℕ) × Response Info
  ask ((ip, port), q) = (((ip, port), q), w.request ip q)

  joined_more :
      (o : Option (List QueryPort)) (p : QueryPort) (ps : List QueryPort)
      → joined (joined o (p ∷ [])) ps ≡ joined o (p ∷ ps)
  joined_more none p ps = refl
  joined_more (some qs) p ps = ap some (append_assoc qs (p ∷ []) ps)

  joined_none : (o : Option (List QueryPort)) → joined o [] ≡ o
  joined_none none = refl
  joined_none (some qs) = ap some (append-nil qs)

  -- One answer: the group of its address gets the item, if it is good.
  abbrev add_item : Addr → Option QueryPort → Groups → Groups
  add_item b none d = d
  add_item b (some p) d = append_port b p d

  collect_ports-add :
      (b : Addr) (q : ℕ) (d : Groups) (rest : List ((Addr × ℕ) × Response Info))
      → collect_ports w d (ask (b, q) ∷ rest) ≡ collect_ports w (add_item b (item b q) d) rest
  unfolding collect_ports item
  collect_ports-add (ip, port) q d rest =
      elim (Option-cases (good_status w port (w.request ip q))) [
        | inl e ↦ rw (e, collect_ports) refl
        | inr (st, e) ↦ rw (e, collect_ports) refl
      ]

  add_item-Distinct :
      (b : Addr) (o : Option QueryPort) (d : Groups) → Distinct d → Distinct (add_item b o d)
  add_item-Distinct b none d u = u
  add_item-Distinct b (some p) d u = append_port-Distinct b p d u

  pub collect_ports-Distinct :
      (tasks : List (Addr × ℕ)) (d : Groups)
      → Distinct d
      → Distinct (collect_ports w d (map ask tasks))
  unfolding collect_ports
  collect_ports-Distinct [] d u = u
  collect_ports-Distinct ((b, q) ∷ tasks) d u =
      rw (collect_ports-add b q d (map ask tasks)) (
        collect_ports-Distinct tasks (add_item b (item b q) d) (add_item-Distinct b (item b q) d u))

  joined-add_item :
      (a b : Addr) (o : Option QueryPort) (d : Groups) (ps : List QueryPort)
      → joined (hget a (add_item b o d)) ps
        ≡ joined
            (hget a d)
            (if same_address a b then elim o [ none ↦ ps | some p ↦ p ∷ ps ] else ps)
  joined-add_item a b none d ps = ground arith
  joined-add_item a b (some p) d ps =
      ground (arith, hget-append_port a b p d, joined_more (hget a d) p ps)

  pub hget-collect_ports :
      (a : Addr) (tasks : List (Addr × ℕ)) (d : Groups)
      → hget a (collect_ports w d (map ask tasks)) ≡ joined (hget a d) (offered a tasks)
  unfolding collect_ports offered
  hget-collect_ports a [] d = sym (joined_none (hget a d))
  hget-collect_ports a ((b, q) ∷ tasks) d =
      ap (hget a) (collect_ports-add b q d (map ask tasks))
      ∙ hget-collect_ports a tasks (add_item b (item b q) d)
      ∙ joined-add_item a b (item b q) d (offered a tasks)

-- The port that a group settles on, if it differs from the one that the server has.
unfoldable pub settled_port : Groups → Server → ℕ
settled_port d s = elim (hget (address s) d) [
  | none ↦ s.status_port
  | some ports ↦ elim (sorted preferred_to ports) [ [] ↦ s.status_port | p ∷ ps ↦ p.port ]
]

abbrev settle : Groups → Server → Server
settle d s = record s { status_port = settled_port d s }

-- The port of a row after the update of one address.
abbrev port_after : Addr → List QueryPort → Server → ℕ
port_after a [] s = s.status_port
port_after a (p ∷ ports) s =
    if same_address a (address s) && not (s.status_port == p.port) then p.port else s.status_port

prefer-port_after :
    (a : Addr) (ports : List QueryPort) (rows : List Server)
    → prefer a ports rows
      ≡ map (λ (s : Server). record s { status_port = port_after a ports s }) rows
unfolding prefer
prefer-port_after a [] rows = sym (map-id rows)
prefer-port_after a (p ∷ ports) rows = map_congr _ _ rows (All-all _ (λ s. ground arith) rows)

same_group :
    (a : Addr) (s : Server) (d : Groups)
    → hget a d ≡ none
    → same_address a (address s) ≡ true
    → hget (address s) d ≡ none
same_group a s [] h e = refl
same_group a s ((b, ports) ∷ d) h e = ground (arith, same_group a s d)

settled_port-after :
    (a : Addr) (ports : List QueryPort) (d : Groups) (s : Server)
    → hget a d ≡ none
    → settled_port d (record s { status_port = port_after a (sorted preferred_to ports) s })
      ≡ settled_port ((a, ports) ∷ d) s
unfolding settled_port
settled_port-after a ports d s h = ground (arith, same_group a s d h)

pub prefer_all-settle :
    (d : Groups) (rows : List Server) → Distinct d → prefer_all d rows ≡ map (settle d) rows
unfolding prefer_all settled_port
prefer_all-settle [] rows u = sym (map-id rows)
prefer_all-settle ((a, ports) ∷ d) rows u =
    prefer_all-settle d (prefer a (sorted preferred_to ports) rows) u.1
    ∙ ap (map (settle d)) (prefer-port_after a (sorted preferred_to ports) rows)
    ∙ map-map _ _ rows
    ∙ map_congr _ _ rows (
        All-all _ (λ s. ap (λ q. record s { status_port = q }) (settled_port-after a ports d s u.0))
          rows)
