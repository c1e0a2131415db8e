-- ===== src/Server/Create/Laws.antt =====
-- What registration promises: keys and addresses stay unique, and `create_servers` answers with
-- the enabled rows of the addresses that it was given.
use swat4stats.Base.{
  ℕ, suc, ◌<◌, ◌≡◌, refl, ◌≢◌, inl, inr, Bool, true, false, not, ◌&&◌, ◌||◌, none, some, List, [],
  ◌∷◌, ◌++◌, arith, ◌==◌, if◌then◌else◌, elem, All, All-append, All-map, All-map₂, Bool-cases,
  Option-cases,
}
use swat4stats.Base.Table.{find?, find?-All, find?-none, select, select_congr}
use mathlib.Core.Path.{subst}
use mathlib.Core.Option
use swat4stats.Models.Db.{Db}
use swat4stats.Models.Server.{Server, new_server, saved, has_address}
use swat4stats.Server.Create.{create, get_or_create, register, register_all, create_servers}

abbrev pub Differs : Server → Server → Type 0
Differs s t = (t.pk ≢ s.pk) × (has_address s.ip s.port t ≡ false)

abbrev pub Unique : List Server → Type 0
Unique [] = Unit
Unique (s ∷ rest) = All (Differs s) rest × Unique rest

-- No two rows share a key or an address, and the next key is free.
pub record IsRegistry (db : Db) : Type 0 where
  pub keys : All (λ s. s.pk < db.next_server) db.servers
  pub unique : Unique db.servers

-- Whether some address of the list is that of the row.
abbrev pub requested : List (ℕ × ℕ) → Server → Bool
requested [] s = false
requested ((ip, port) ∷ addrs) s = has_address ip port s || requested addrs s

-- The row found by an address is the only one with that address, and the only one with its key.
abbrev IsOnly : ℕ → ℕ → Server → Server → Type 0
IsOnly ip port t s =
    ((s.pk == t.pk) ≡ has_address ip port s)
    × (has_address ip port s ≡ true → s.enabled ≡ t.enabled)

IsOnly-head : (ip port : ℕ) (t : Server) → has_address ip port t ≡ true → IsOnly ip port t t
IsOnly-head ip port t h = (ground arith, λ _. refl)

IsOnly-rest :
    (ip port : ℕ) (t s : Server) → has_address ip port t ≡ true → Differs t s → IsOnly ip port t s
IsOnly-rest ip port t s h d = (ground arith, λ e. absurd (ground arith))

find-IsOnly :
    (ip port : ℕ) (rows : List Server) (t : Server)
    → Unique rows
    → find? (has_address ip port) rows ≡ some t
    → All (IsOnly ip port t) rows
find-IsOnly ip port [] t u e = tt
find-IsOnly ip port (s ∷ rows) t u e = elim (Bool-cases (has_address ip port s)) [
  | inl h ↦
      subst (λ x. All (IsOnly ip port x) (s ∷ rows)) (Option.some-injective s t (rw h at e))
        (IsOnly-head ip port s h, All-map (λ x d. IsOnly-rest ip port s x h d) rows u.0)
  | inr h ↦
      let found : find? (has_address ip port) rows ≡ some t = rw h at e in
      let d = find?-All (Differs s) (has_address ip port) rows t u.0 found in
      ((ground arith, λ y. absurd (ground arith)), find-IsOnly ip port rows t u.1 found)
]

-- A new row goes to the end: it shares no key and no address with the rows before it.
Unique-append :
    (rows : List Server) (s : Server)
    → Unique rows
    → All (λ r. Differs r s) rows
    → Unique (rows ++ s ∷ [])
Unique-append [] s u d = (tt, tt)
Unique-append (r ∷ rows) s u d =
    (All-append (Differs r) rows (s ∷ []) u.0 (d.0, tt), Unique-append rows s u.1 d.1)

-- `st` has collected exactly the keys of the enabled rows that `acc` asks for.
record Tracks (acc : Server → Bool) (st : List ℕ × Db) : Type 0 where
  registry : IsRegistry st.1
  collected : All (λ s. elem s.pk st.0 ≡ (s.enabled && acc s)) st.1.servers

-- What is true of the row that registration adds.
record IsFresh (ip port next : ℕ) (s : Server) : Type 0 where
  key : s.pk ≡ next
  address : has_address ip port s ≡ true
  on : s.enabled ≡ true

saved-IsFresh :
    (ip port next : ℕ) (s : Server)
    → saved (new_server next ip port) ≡ some s
    → IsFresh ip port next s
unfolding saved
saved-IsFresh ip port next s e = ground arith

fresh-Differs :
    (ip port next : ℕ) (s r : Server)
    → IsFresh ip port next s
    → r.pk < next
    → has_address ip port r ≡ false
    → Differs r s
fresh-Differs ip port next s r f lt h = ground arith

-- The address is new: the row is saved behind the others and its key is collected.
register_new :
    (acc : Server → Bool) (ip port : ℕ) (pks : List ℕ) (db : Db) (s : Server)
    → Tracks acc (pks, db)
    → find? (has_address ip port) db.servers ≡ none
    → IsFresh ip port db.next_server s
    → Tracks
        (λ r. acc r || has_address ip port r)
        (s.pk ∷ pks, record db { servers = db.servers ++ s ∷ []; next_server = suc db.next_server })
register_new acc ip port pks db s t e f =
    let absent = find?-none (has_address ip port) db.servers e in
    let other : All (λ r. (r.pk < db.next_server) × (has_address ip port r ≡ false)) db.servers =
      All-map₂ (λ r lt k. (lt, k)) db.servers t.registry.keys absent in
    record {
      registry = record {
        keys =
            All-append _ db.servers (s ∷ [])
              (All-map (λ r lt. omega arith) db.servers t.registry.keys) (omega (arith, f.key), tt);
        unique =
            Unique-append db.servers s t.registry.unique (
              All-map (λ r k. fresh-Differs ip port db.next_server s r f k.0 k.1) db.servers other);
      };
      collected =
          All-append _ db.servers (s ∷ [])
            (All-map₂ (λ r c k. ground (arith, f.key, k)) db.servers t.collected other)
            (ground (arith, f.address, f.on), tt);
    }

register_refused :
    (acc : Server → Bool) (ip port : ℕ) (pks : List ℕ) (db : Db)
    → Tracks acc (pks, db)
    → find? (has_address ip port) db.servers ≡ none
    → Tracks (λ r. acc r || has_address ip port r) (pks, db)
register_refused acc ip port pks db t e = record {
  registry = t.registry;
  collected =
      All-map₂ (λ r c k. ground (arith, k)) db.servers t.collected
        (find?-none (has_address ip port) db.servers e);
}

register_found :
    (acc : Server → Bool) (ip port : ℕ) (pks : List ℕ) (db : Db) (s : Server) (on : Bool)
    → Tracks acc (pks, db)
    → find? (has_address ip port) db.servers ≡ some s
    → s.enabled ≡ on
    → Tracks (λ r. acc r || has_address ip port r) (if not on then (pks, db) else (s.pk ∷ pks, db))
register_found acc ip port pks db s true t e on = record {
  registry = t.registry;
  collected =
      All-map₂ (λ r c k. ground (arith, k.0, k.1)) db.servers t.collected
        (find-IsOnly ip port db.servers s t.registry.unique e);
}
register_found acc ip port pks db s false t e off = record {
  registry = t.registry;
  collected =
      All-map₂ (λ r c k. ground (arith, k.0, k.1)) db.servers t.collected
        (find-IsOnly ip port db.servers s t.registry.unique e);
}

register-Tracks :
    (acc : Server → Bool) (ip port : ℕ) (st : List ℕ × Db)
    → Tracks acc st
    → Tracks (λ r. acc r || has_address ip port r) (register (ip, port) st)
unfolding register
register-Tracks acc ip port (pks, db) t =
    elim (Option-cases (find? (has_address ip port) db.servers)) [
      | inr (s, e) ↦
          rw (e, register, get_or_create) (register_found acc ip port pks db s s.enabled t e refl)
      | inl e ↦ elim (Option-cases (saved (new_server db.next_server ip port))) [
        | inl bad ↦
            rw (e, bad, register, get_or_create, create) (register_refused acc ip port pks db t e)
        | inr (s, good) ↦
            rw (e, good, register, get_or_create, create)
              (register_new acc ip port pks db s t e (saved-IsFresh ip port db.next_server s good))
      ]
    ]

register_all-Tracks :
    (addrs : List (ℕ × ℕ)) (acc : Server → Bool) (st : List ℕ × Db)
    → Tracks acc st
    → Tracks (λ r. acc r || requested addrs r) (register_all addrs st)
unfolding register_all
register_all-Tracks [] acc st t = record {
  registry = t.registry;
  collected = All-map (λ r c. ground (arith, c)) st.1.servers t.collected;
}
register_all-Tracks ((ip, port) ∷ addrs) acc st t =
    let u =
      register_all-Tracks addrs _ (register (ip, port) st) (register-Tracks acc ip port st t) in
    record { registry = u.registry; collected = All-map (λ r c. ground (arith, c)) _ u.collected }

-- On a table whose keys and addresses are unique they stay unique, and the answer of
-- `create_servers` is exactly the enabled rows of the new table whose address was requested.
pub create_servers_answer :
    (addrs : List (ℕ × ℕ)) (db : Db)
    → IsRegistry db
    → let (rows, db') = create_servers addrs db in
      IsRegistry db' × (rows ≡ select (λ s. s.enabled && requested addrs s) db'.servers)
unfolding create_servers
create_servers_answer addrs db valid =
    let t =
      register_all-Tracks addrs (λ s. false) ([], db)
        (record { registry = valid; collected = nothing db.servers }) in
    (t.registry, select_congr _ _ _ t.collected)
  where
    nothing : (rows : List Server) → All (λ s. false ≡ (s.enabled && false)) rows
    nothing [] = tt
    nothing (s ∷ rows) = (ground arith, nothing rows)
