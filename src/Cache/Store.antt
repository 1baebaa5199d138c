-- ===== src/Cache/Store.antt =====
-- src/cache/adapters/redis-cache/redis-cache.adapter.ts over the string commands of Redis, an interface
-- with the laws of the commands' documentation. Times are milliseconds.
use ai_provider_gateway.Prelude.{
  ℕ, ◌+◌, ◌*◌, ◌≤◌, ◌≡◌, Bool, true, false, not, Option, none, some, leb, ltb, is_some,
  if◌then◌else◌,
}
use ai_provider_gateway.Prelude.Texts.{Text}
use ai_provider_gateway.RateLimit.Service.{Connection}

pub record Strings : Type 1 where
  pub Db : Type 0
  pub get : Text → ℕ → Db → Option Text
  -- SET with NX, and EX if a time to live is given.
  pub set_nx : Text → Text → Option ℕ → ℕ → Db → Db
  pub del : Text → ℕ → Db → Db
  pub get-set_nx_old :
      (k : Text) (old v : Text) (ttl : Option ℕ) (now : ℕ) (db : Db)
      → get k now db ≡ some old
      → set_nx k v ttl now db ≡ db
  pub get-set_nx_new :
      (k v : Text) (ttl now later : ℕ) (db : Db)
      → get k now db ≡ none
      → now ≤ later
      → get k later (set_nx k v (some ttl) now db)
        ≡ (if leb (now + ttl) later then none else some v)
  pub get-set_nx_forever :
      (k v : Text) (now later : ℕ) (db : Db)
      → get k now db ≡ none
      → now ≤ later
      → get k later (set_nx k v none now db) ≡ some v
  pub get-del :
      (k : Text) (now later : ℕ) (db : Db) → now ≤ later → get k later (del k now db) ≡ none

-- `client` is null, or the command fails: nothing is written, and the answer is that of a miss.
abbrev reachable : Connection → Bool
reachable conn = if conn.has_client then not conn.fails else false

module _ (r : Strings) (conn : Connection) where
  unfoldable pub backend_get : Text → ℕ → r.Db → Option Text
  backend_get key now db = if reachable conn then r.get key now db else none

  -- `ttl` is in seconds; a time to live of 0 is none.
  unfoldable pub backend_set : Text → Text → ℕ → ℕ → r.Db → Bool × r.Db
  backend_set key value ttl now db =
      if reachable conn
      then (true, r.set_nx key value (if ltb 0 ttl then some (ttl * 1000) else none) now db)
      else (false, db)

  unfoldable pub backend_delete : Text → ℕ → r.Db → Bool × r.Db
  backend_delete key now db =
      if reachable conn then (is_some (r.get key now db), r.del key now db) else (false, db)
