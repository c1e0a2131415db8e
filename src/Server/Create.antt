-- ===== src/Server/Create.antt =====
-- Registration: `create_server` and `create_servers` of apps/tracker/managers/server.py.
pub mod Laws
use swat4stats.Base.{
  ℕ, suc, ◌+◌, ◌≡◌, refl, Bool, true, false, ◌&&◌, not, Option, none, some, List, [], ◌∷◌, ◌++◌,
  arith, ◌==◌, if◌then◌else◌, elem,
}
use mathlib.Core.Option
use swat4stats.Base.Table.{select, find?, exists}
use swat4stats.Models.Db.{Db}
use swat4stats.Models.Server.{Server, new_server, saved, has_address}

-- `self.create(ip=ip, port=port, **options)`; `none` is the `ValidationError` of `save`. The
-- options are what the caller sets on the new row before it is saved.
unfoldable pub create : ℕ → ℕ → (Server → Server) → Db → Option (Server × Db)
unfolding saved
create ip port options db =
    Option.map
      (λ s. (s, record db { servers = db.servers ++ s ∷ []; next_server = suc db.next_server }))
      (saved (options (new_server db.next_server ip port)))

-- `create_server`; both kinds of `ValidationError` are `none`.
unfoldable pub create_server : ℕ → ℕ → (Server → Server) → Db → Option (Server × Db)
unfolding create
create_server ip port options db =
    if exists (has_address ip port) db.servers then none else create ip port options db

-- `self.get_or_create(ip=…, port=…)`: the row, and whether it is new
unfoldable pub get_or_create : ℕ → ℕ → Db → Option (Server × Bool × Db)
unfolding create
get_or_create ip port db = elim (find? (has_address ip port) db.servers) [
  | some s ↦ some (s, false, db)
  | none ↦ Option.map (λ (s, db'). (s, true, db')) (create ip port (λ s. s) db)
]

-- One round of the loop in `create_servers`, on the collected keys and the tables.
unfoldable pub register : ℕ × ℕ → List ℕ × Db → List ℕ × Db
unfolding get_or_create
register (ip, port) (pks, db) = elim (get_or_create ip port db) [
  | none ↦ (pks, db)
  | some (s, created, db') ↦ if not created && not s.enabled then (pks, db') else (s.pk ∷ pks, db')
]

unfoldable pub register_all : List (ℕ × ℕ) → List ℕ × Db → List ℕ × Db
unfolding register
register_all [] st = st
register_all (a ∷ addrs) st = register_all addrs (register a st)

-- `create_servers`: the rows of the collected keys, and the tables after it
unfoldable pub create_servers : List (ℕ × ℕ) → Db → List Server × Db
unfolding register_all
create_servers addrs db =
    let (pks, db') = register_all addrs ([], db) in (select (λ s. elem s.pk pks) db'.servers, db')
