-- ===== src/Server/Stream.antt =====
-- Reports of games: the view that accepts them (apps/tracker/views/stream.py) and what the receivers
-- of `game_data_saved` (apps/tracker/signals.py) do to the server once the game is saved. The
-- task that saves the game is queued by the view and is left out here.
use swat4stats.Base.{ℕ, Bool, false, Option, none, some, List, [], ◌∷◌, ◌==◌, if◌then◌else◌}
use swat4stats.Base.Text.{Text, text_eq}
use swat4stats.Base.Table.{update_where, find?}
use swat4stats.Models.Db.{Db}
use swat4stats.Models.Server.{Server, has_address}
use swat4stats.Server.Create.{create_server}
use swat4stats.Server.Listing.{relist_servers, update_hostnames}

-- What the view answers: success, the error that the server is not registered, or the
-- `ValidationError` of a port out of range, which is not caught.
pub data Answer (A : Type 0) : Type 0 where
  accepted : A → Answer A
  not_registered : Answer A
  invalid : Answer A

-- `if not server.enabled: raise APIError`
unfoldable pub checked : Server × Db → Answer (Server × Db)
checked (s, db) = if s.enabled then accepted (s, db) else not_registered

-- `_get_or_create_server`
unfoldable pub get_or_create_server : ℕ → ℕ → Db → Answer (Server × Db)
unfolding checked create_server
get_or_create_server ip port db = elim (find? (has_address ip port) db.servers) [
  | some s ↦ checked (s, db)
  | none ↦ elim (create_server ip port (λ s. s) db) [ none ↦ invalid | some made ↦ checked made ]
]

-- `server.hostname == hostname`, `server.version == version`: the column may be NULL
abbrev pub same_text : Option Text → Text → Bool
same_text none t = false
same_text (some s) t = text_eq s t

-- `_update_server_mod_version`
unfoldable pub update_server_mod_version : Server → Text → List Server → List Server
update_server_mod_version s version rows =
    if same_text s.version version
    then rows
    else update_where (λ r. r.pk == s.pk) (λ r. record r { version = some version }) rows

-- `handle`; an error rolls back what was done before.
unfoldable pub handle : ℕ → ℕ → Text → Db → Answer Db
unfolding get_or_create_server update_server_mod_version
handle ip port version db = elim (get_or_create_server ip port db) [
  | accepted (s, db') ↦
      accepted (record db' { servers = update_server_mod_version s version db'.servers })
  | not_registered ↦ not_registered
  | invalid ↦ invalid
]

-- `relist_streaming_server`; the flag is that of the object, not of the row
unfoldable pub relist_streaming_server : Server → List Server → List Server
unfolding relist_servers
relist_streaming_server s rows = if s.listed then rows else (relist_servers (s.pk ∷ []) rows).1

-- `change_hostname_for_streaming_server`
unfoldable pub change_hostname_for_streaming_server :
    (Text → Text) → ℕ → Server → Text → List Server → List Server
change_hostname_for_streaming_server clean now s [] rows = rows
change_hostname_for_streaming_server clean now s (c ∷ h) rows =
    if same_text s.hostname (c ∷ h) then rows else update_hostnames clean now ((s, c ∷ h) ∷ []) rows
