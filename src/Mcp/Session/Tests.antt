-- ===== src/Mcp/Session/Tests.antt =====
-- infomesh/mcp/session.py for a store of one session and a registry of two URLs.
use infomesh.Prelude.{
  ℕ, ◌≡◌, refl, Bool, true, false, List, [], ◌∷◌, arith, if◌then◌else◌, Text, bytes, text_eq, ◌==◌,
}
use infomesh.Prelude.Dict.{lookup, insert, erase}
use infomesh.Prelude.Result.{ok}
use infomesh.Mcp.Session.{
  SearchSession, SessionStore, new_store, remember, get_or_create, create, evict, expired_ids,
  delete_ids, oldest_key, oldest_from, register, unregister, member,
}
use infomesh.Mcp.Session.Store.{IsStore}
use infomesh.Mcp.Session.Webhooks.{Event, registered, unregistered, apply, apply_all}

abbrev session_at : ℕ → SearchSession
session_at now = record {
  last_query = bytes "python";
  last_results = bytes "docs";
  updated_at = now;
}

-- A store for one session, which is taken and has not expired at 200 s.
abbrev full_store : SessionStore
full_store = record (new_store 1 3600) { sessions = (bytes "s1", session_at 100) ∷ [] }

full_store-IsStore : IsStore full_store
full_store-IsStore = record { unique = unfold lookup in (refl, tt); bounded = omega arith }

replaced :
    remember full_store (bytes "s2") (bytes "python") (bytes "docs") 200 201
    ≡ ok (record full_store { sessions = (bytes "s2", session_at 201) ∷ [] })
unfolding remember get_or_create create evict expired_ids delete_ids oldest_key oldest_from lookup
    insert erase
replaced = refl

abbrev public_only : Text → Bool
public_only url = if url == bytes "http://localhost" then false else true

abbrev calls : List Event
calls =
    registered (bytes "http://a.example")
    ∷ registered (bytes "http://localhost")
    ∷ registered (bytes "http://a.example")
    ∷ unregistered (bytes "http://b.example")
    ∷ []

one_left :
    (apply_all public_only (record { urls = []; max_registrations = 2 }) calls).urls
    ≡ bytes "http://a.example" ∷ []
unfolding apply_all apply register unregister member
one_left = refl
